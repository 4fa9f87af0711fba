-- ===== src/EventRelay/Page/Visible.antt =====
-- `isElementVisible` against the relation "is an ancestor of".
use mathlib.Core.Bool.{false≢true}
use effect_native.Prelude.{
  ℕ, zero, suc, ◌≤◌, ◌<◌, ◌≡◌, sym, ◌∙◌, ◌↔◌, true, false, some, inl, inr, length, get_elem?,
  Bool-cases, Option-cases, arith,
}
use effect_native.EventRelay.Page.{Element, Page, is_element_visible, walk_fuel}

-- The element itself and what it lies in.
pub data Within (page : Page) : ℕ → ℕ → Type 0 where
  itself : {el : ℕ} → Within page el el
  above :
      {el up root : ℕ} (e : Element)
      → get_elem? page.nodes el ≡ some e
      → e.parent ≡ some up
      → Within page up root
      → Within page el root

-- No element lies in itself: each has a depth below its parents', at most the number of the nodes.
pub record IsTree (page : Page) : Type 0 where
  pub depth : ℕ → ℕ
  pub bounded : (el : ℕ) → depth el ≤ length page.nodes
  pub above :
      (el up : ℕ) (e : Element)
      → get_elem? page.nodes el ≡ some e
      → e.parent ≡ some up
      → depth up < depth el

-- An element with `display: none` that `el` lies in.
pub record HiddenBy (page : Page) (el : ℕ) : Type 0 where
  pub root : ℕ
  pub element : Element
  pub within : Within page el root
  pub is_node : get_elem? page.nodes root ≡ some element
  pub hides : element.hidden ≡ true

module _ (page : Page) (tree : IsTree page) where
  pub hidden_by : (fuel el : ℕ) → is_element_visible fuel page el ≡ false → HiddenBy page el
  unfolding is_element_visible
  hidden_by zero el h = absurd (cc)
  hidden_by (suc fuel) el h = elim (Option-cases (get_elem? page.nodes el)) [
    | inl e ↦ absurd (ground arith)
    | inr (e, q) ↦ elim (Bool-cases e.hidden) [
      | inl hides ↦ record { root = el; element = e; within = itself; is_node = q; hides = hides }
      | inr shows ↦ elim (Option-cases e.parent) [
        | inl top ↦ absurd (ground arith)
        | inr (up, is_up) ↦
            let by = hidden_by fuel up (ground arith) in
            record {
              root = by.root;
              element = by.element;
              within = above e q is_up by.within;
              is_node = by.is_node;
              hides = by.hides;
            }
      ]
    ]
  ]

  pub not_hidden_by :
      (fuel el : ℕ)
      → tree.depth el < fuel
      → is_element_visible fuel page el ≡ true
      → (root : ℕ) (e : Element) → Within page el root
      → get_elem? page.nodes root ≡ some e
      → e.hidden ≡ false
  unfolding is_element_visible
  not_hidden_by zero el l h root e w q = absurd (omega arith)
  not_hidden_by (suc fuel) el l h root e itself q = ground arith
  not_hidden_by (suc fuel) el l h root e (above {up = up} x node is_up w) q =
      not_hidden_by fuel up (omega (arith, tree.above el up x node is_up)) (ground arith) root e w q

-- On a page where no element lies in itself, an element is visible exactly when nothing that it lies
-- in, itself included, is hidden: the number of the nodes is fuel enough for the walk.
pub is_element_visible_lem :
    (page : Page) (el : ℕ)
    → IsTree page
    → (is_element_visible (walk_fuel page) page el ≡ true) ↔ (¬ (HiddenBy page el))
is_element_visible_lem page el tree = (
  λ h by. false≢true (
      sym (
        not_hidden_by page tree (walk_fuel page) el enough h by.root by.element by.within
          by.is_node)
      ∙ by.hides),
  λ never. elim (Bool-cases (is_element_visible (walk_fuel page) page el)) [
    | inl h ↦ h
    | inr h ↦ absurd (never (hidden_by page tree (walk_fuel page) el h))
  ],
)
  where
    enough : tree.depth el < walk_fuel page
    enough = omega (arith, tree.bounded el)
