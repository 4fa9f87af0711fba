-- ===== src/FetchHooks/Cache/Quiet.antt =====
-- The surroundings of the cache that do not write to it.
use effect_native.Prelude.{◌≡◌, refl, Bool, false, Option, none, some, Text}
use effect_native.Prelude.Int.{ℤ}
use effect_native.FetchHooks.Io.{continue, return}
use effect_native.FetchHooks.Implements.{Contents, Quietly}
use effect_native.FetchHooks.Host.{Host, Response, LogEntry, log_write, is_ok, catch}
use effect_native.FetchHooks.Cache.Legacy.{try_dev_fs_logs_write}

-- Clock and log server do not write to the cache. A request to the log server may be rejected.
pub record IsQuiet {W : Type 0} (host : Host W) (valid : W → Type 0)
    (view : W → Contents host.lines.Value) : Type 0 where
  pub clock : (w : W) → valid w → (t : ℤ) × Quietly valid view host.clock w t
  pub iso_date : (w : W) → valid w → (t : Text) × Quietly valid view host.iso_date w t
  pub post :
      (i : Text) (e : LogEntry host.lines.Value) (w : W)
      → valid w
      → valid (host.internal_fetch (log_write i e) w).1
        × (view (host.internal_fetch (log_write i e) w).1 ≡ view w)

module _ {W : Type 0} (host : Host W) (valid : W → Type 0) (view : W → Contents host.lines.Value)
    (quiet : IsQuiet host valid view) where
  -- A request to the log server, whatever comes of it, leaves the cache alone.
  pub log_Quietly :
      (i : Text) (e : LogEntry host.lines.Value) (w : W)
      → valid w
      → (b : Bool) × Quietly valid view (try_dev_fs_logs_write host i e) w b
  unfolding try_dev_fs_logs_write
  log_Quietly i e w v = caught (host.internal_fetch (log_write i e) w) (quiet.post i e w v)
    where
      caught :
          (r : Option Response × W)
          → valid r.1 × (view r.1 ≡ view w)
          → (b : Bool) × ((w' : W) × (catch false (continue r (λ response. return (is_ok response)))
                ≡ (some b, w'))
              × valid w'
              × (view w' ≡ view w))
      caught (none, w') (v', h) = (false, (w', refl, v', h))
      caught (some a, w') (v', h) = (is_ok a, (w', refl, v', h))
