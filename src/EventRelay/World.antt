-- ===== src/EventRelay/World.antt =====
-- The state that `createEventRelay` closes over, the document beside it, and what the relay calls.
use effect_native.Prelude.{ℕ, Bool, Option, List, Text}
use effect_native.EventRelay.Page.{Page}

-- `TUIKeyEvent`, without `preventDefault`, which is a part of the outcome of a key press.
pub record Key : Type 0 where
  pub name : Text
  pub code : Option Text
  pub ctrl : Bool
  pub shift : Bool
  pub option : Bool
  pub meta : Bool
  pub repeated : Option Bool

pub data KeyPhase : Type 0 where
  keydown keyup keypress : KeyPhase

-- The events that the relay constructs, with what it sets.
pub data Event : Type 0 where
  keyboard :
      (phase : KeyPhase) (key : Text) (key_code : ℕ) (code : Text)
      (ctrl_key alt_key shift_key meta_key repeat : Bool)
      → Event
  mouse_click : Event
  input_insert : Text → Event
  input_delete_backward : Event
  change : Event

-- `ScrollContainer`; rows are counted from 0.
pub record ScrollContainer : Type 0 where
  pub scroll_top : ℕ
  -- `scrollTo` is there
  pub has_scroll_to : Bool
  -- `viewport.height`
  pub viewport_height : Option ℕ

-- A renderable: its row `y`, the internal `_y` and `_translateY` where it has them, its parent.
pub record Renderable : Type 0 where
  pub y : ℕ
  pub height : ℕ
  pub internal_y : Option ℕ
  pub translate_y : Option ℕ
  pub parent : Option ℕ

-- The variables of the closure, the document, and the renderers to which the handler is subscribed.
pub record World : Type 0 where
  pub page : Page
  pub attached : Bool
  pub current_renderer : Option ℕ
  -- `currentDocument` is not null; there is one document
  pub has_document : Bool
  pub has_node_map : Bool
  -- `keypressHandler` is not null
  pub has_handler : Bool
  pub trap_container : Option ℕ
  pub pre_trap_focus : Option ℕ
  pub scroll_dom_container : Option ℕ
  pub scroll_tui_container : Option ScrollContainer
  pub subscribed : List ℕ

-- What the relay uses of the DOM, of the terminal renderer and of the language. Handlers of an event
-- may change anything.
pub record Host : Type 0 where
  -- `target.dispatchEvent(event)`, with whether the default was prevented
  pub dispatch : ℕ → Event → World → World × Bool
  -- `element.focus()`, `element.click()`
  pub focus : ℕ → World → World
  pub click : ℕ → World → World
  -- the setter of `value`
  pub set_value : ℕ → Text → World → World
  -- the setter of `checked`, to true
  pub check : ℕ → World → World
  -- `scrollTo(position)`
  pub scroll_to : ScrollContainer → ℕ → ScrollContainer
  -- `toLowerCase`, `toUpperCase`
  pub lower : Text → Text
  pub upper : Text → Text
  -- `currentNodeMap.getRenderable(element)`, and a renderable by its name
  pub get_renderable : ℕ → Option ℕ
  pub renderable : ℕ → Option Renderable
