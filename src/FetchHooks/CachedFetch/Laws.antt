-- ===== src/FetchHooks/CachedFetch/Laws.antt =====
-- A request that is made twice is fetched once: packages/fetch-hooks/src/index.ts on a storage that
-- implements the cache.
use mathlib.Core.Path.{fun_ext}
use effect_native.Prelude.{
  ◌≡◌, refl, ◌∙◌, Bool, true, Option, none, some, List, [], ◌∷◌, ◌⊎◌, arith,
}
use effect_native.FetchHooks.Io.{Action}
use effect_native.FetchHooks.Implements.{Implements}
use effect_native.FetchHooks.Host.{Host, Response, LogCall}
use effect_native.FetchHooks.CachedFetch.{
  FetchInit, Platform, CacheOptions, hashable_request, recorded_fetch, cached_fetch,
  create_cached_fetch, set_internal_fetch, log_request, or_default, Fetch, cached, Globals,
  enable_dev_fetch_cache, disable_dev_fetch_cache,
}
use effect_native.FetchHooks.Types.{CacheStorage, HashableRequest}
use effect_native.FetchHooks.CachedFetch.Twice.{IsCached}

-- Behind the choice of the log server's fetch, a call in replay-only mode does not use the network.
recorded_fetch-offline :
    {W : Type 0} (host : Host W) (s : Option (CacheStorage W host.lines.Value))
    (platform : Platform) (default : Bool) (options : CacheOptions W)
    (network other : FetchInit → Action W Response) (call : FetchInit) (q : HashableRequest) (w : W)
    → recorded_fetch host platform default
        (record options { replay_only = some true })
        s
        network
        call
        q
        w
      ≡ recorded_fetch host platform default
          (record options { replay_only = some true })
          s
          other
          call
          q
          w
unfolding recorded_fetch
recorded_fetch-offline host s platform default options network other call q w = refl

same_log :
    {W : Type 0} (host : Host W) (network other : FetchInit → Action W Response)
    (o : Option (FetchInit → Action W Response))
    → ((c : LogCall host.lines.Value) → network (log_request host c) ≡ other (log_request host c))
    → (c : LogCall host.lines.Value)
    → or_default o network (log_request host c) ≡ or_default o other (log_request host c)
same_log host network other none agree c = agree c
same_log host network other (some f) agree c = refl

-- In replay-only mode, whatever the other options and the storage, a call that goes to the cache does the
-- same on any two networks that treat the calls to the log server alike: it makes no other call of them.
pub replay_only_offline :
    {W : Type 0} (host : Host W) (s : Option (CacheStorage W host.lines.Value))
    (platform : Platform) (default : Bool) (options : CacheOptions W)
    (network other : FetchInit → Action W Response) (call : FetchInit) (w : W)
    → ((c : LogCall host.lines.Value) → network (log_request host c) ≡ other (log_request host c))
    → IsCached platform call
    → create_cached_fetch host platform default
        (record options { replay_only = some true })
        s
        network
        call
        w
      ≡ create_cached_fetch host platform default
          (record options { replay_only = some true })
          s
          other
          call
          w
unfolding create_cached_fetch cached_fetch
replay_only_offline host s platform default options network other call w agree (a, b, c) =
    rw (a, b, c)
      ((λ i.
          recorded_fetch
            (record host {
              internal_fetch = fun_ext (same_log host network other options.internal_fetch agree) i;
            })
            platform default (record options { replay_only = some true }) s network call
            (hashable_request platform call) w)
        ∙ recorded_fetch-offline (set_internal_fetch host (or_default options.internal_fetch other))
            s platform default options network other call (hashable_request platform call) w)

-- The calls of `enableDevFetchCache`, each in its environment, and of `disableDevFetchCache`.
pub data Call : Type 0 where
  enable : Platform → Call
  disable : Call

unfoldable pub run : List Call → Globals → Globals
unfolding enable_dev_fetch_cache disable_dev_fetch_cache
run [] g = g
run (enable p ∷ calls) g = run calls (enable_dev_fetch_cache p g)
run (disable ∷ calls) g = run calls (disable_dev_fetch_cache g)

-- The platform's fetch, or that fetch with one cache around it.
abbrev pub IsInstalled : Fetch → Globals → Type 0
IsInstalled f g =
    ((g.fetch ≡ f) × (g.original_fetch ≡ none))
    ⊎ ((g.fetch ≡ cached f) × (g.original_fetch ≡ some f))

enable-IsInstalled :
    (p : Platform) (f : Fetch) (g : Globals)
    → IsInstalled f g
    → IsInstalled f (enable_dev_fetch_cache p g)
unfolding enable_dev_fetch_cache
enable-IsInstalled p f g h = ground (arith, h)

disable-IsInstalled :
    (f : Fetch) (g : Globals) → IsInstalled f g → IsInstalled f (disable_dev_fetch_cache g)
unfolding disable_dev_fetch_cache
disable-IsInstalled f g h = ground (arith, h)

-- Any sequence of calls leaves the platform's fetch, or that fetch with exactly one cache around it.
pub run-IsInstalled :
    (calls : List Call) (f : Fetch) (g : Globals) → IsInstalled f g → IsInstalled f (run calls g)
unfolding run
run-IsInstalled [] f g h = h
run-IsInstalled (enable p ∷ calls) f g h =
    run-IsInstalled calls f (enable_dev_fetch_cache p g) (enable-IsInstalled p f g h)
run-IsInstalled (disable ∷ calls) f g h =
    run-IsInstalled calls f (disable_dev_fetch_cache g) (disable-IsInstalled f g h)
