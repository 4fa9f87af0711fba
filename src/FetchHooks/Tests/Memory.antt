-- ===== src/FetchHooks/Tests/Memory.antt =====
-- A storage in memory, a network without a log server, and the theorems of the cached fetch.
use effect_native.Prelude.{
  Option, if◌then◌else◌, ◌≡◌, refl, Bool, true, false, none, some, [], ◌∷◌, inl, Text, codes,
  starts_with, includes,
}
use effect_native.Prelude.Int.{pos}
use effect_native.FetchHooks.Io.{made}
use effect_native.FetchHooks.Headers.{get, is_production}
use effect_native.FetchHooks.Implements.{Contents, update, Implements}
use effect_native.FetchHooks.FlatFiles.{JsonAt}
use effect_native.FetchHooks.Host.{Host, Response, live, log_write, log_read}
use effect_native.FetchHooks.Cache.Load.{get_cache_key_from_url}
use effect_native.FetchHooks.Cache.Recorded.{Payload}
use effect_native.FetchHooks.CachedFetch.{
  create_cached_fetch, log_request, get_url_from_input, FetchInit, Platform, string, is_local,
  native,
}
use effect_native.FetchHooks.CachedFetch.Twice.{recording}
use effect_native.FetchHooks.CachedFetch.Laws.{
  replay_only_offline, enable, disable, run, IsInstalled, run-IsInstalled,
}
use effect_native.FetchHooks.Jsonl.{Json}
use effect_native.FetchHooks.Types.{CacheStorage}

abbrev never : Json
never = record {
  Value = Unit;
  parse = λ t. none;
  stringify = λ v. [];
  is_null = λ v. false;
  stringify_record = λ r. [];
  parse_line = λ t. none;
}

abbrev World : Type 0
World = Contents (Unit {0})

abbrev no_json : {V : Type 0} → JsonAt V
no_json = record { stringify = λ v. []; parse = λ t. none }

abbrev page : Payload
page = record { bytes = codes "hi"; words = codes "hi"; reads = [] }

abbrev answer : Response
answer = record {
  status = 200;
  status_text = codes "OK";
  headers = (codes "content-type", codes "text/plain") ∷ [];
  body = live 7;
}

abbrev memory : CacheStorage World (Unit {0})
memory = record {
  requests = record {
    get = λ k w. (some (w.request k.0), w);
    set = λ k v w. (some tt, record w { request = update w.request k.0 (some v) });
    has = λ k w. (some true, w);
  };
  response_meta = record {
    get = λ k w. (some (w.meta k.0), w);
    set = λ k v w. (some tt, record w { meta = update w.meta k.0 (some v) });
    has = λ k w. (some true, w);
  };
  response_body = record {
    get = λ k w. (some (w.body k.0), w);
    set = λ k v w. (some tt, record w { body = update w.body k.0 (some v) });
    has = λ k w. (some true, w);
  };
  binary_body = record {
    get = λ k w. (some (w.binary k.0), w);
    set = λ k v w. (some tt, record w { binary = update w.binary k.0 (some v) });
    has = λ k w. (some true, w);
  };
  sse_chunks = record {
    get = λ k w. (some (w.chunks k.0), w);
    set = λ k v w. (some tt, record w { chunks = update w.chunks k.0 v });
    has = λ k w. (some true, w);
  };
}

abbrev host : Host World
host = record {
  fs = record {
    join = λ l. [];
    exists = λ p w. false;
    make_directory = λ p w. (made, w);
    read_text = λ p w. (none, w);
    write_text = λ p t w. (none, w);
    read_bytes = λ p w. (none, w);
    write_bytes = λ p b w. (none, w);
  };
  lines = never;
  json_request = no_json;
  json_meta = no_json;
  json_cached = no_json;
  from_base64 = λ t. [];
  to_base64 = λ b. [];
  to_lower_case = λ t. t;
  hash_request = λ r. some r.url;
  cache_dir = [];
  clock = λ w. (some (pos 3), w);
  iso_date = λ w. (some [], w);
  internal_fetch = λ c w. (none, w);
  meta_in = λ r w. (none, w);
  chunks_in = λ r w. (none, w);
  response_in = λ r w. (none, w);
  json_log = λ i e. i;
  array_buffer = λ r w. (some (codes "hi"), w);
  read_text = λ r w. (some (codes "hi"), w);
  read_stream = λ r w. (some [], w);
  make_headers = λ h. h;
}

abbrev all_keys : Text → Bool
all_keys t = true

abbrev AnyWorld : World → Type 0
AnyWorld w = Unit

abbrev itself : World → World
itself w = w

abbrev nothing : World
nothing = record {
  request = λ k. none;
  meta = λ k. none;
  body = λ k. none;
  binary = λ k. none;
  chunks = λ k. [];
}

abbrev platform : Platform
platform = record { decode = λ b. b; encode_uri_component = λ t. t; env = λ t. none; argv = [] }

abbrev call : FetchInit
call = record { input = string (codes "http://a.b/c"); init = none }

-- A network with no log server.
abbrev network : Option Response → FetchInit → World → Option Response × World
unfolding starts_with
network a c w =
    if starts_with (codes "http://localhost") (get_url_from_input c.input)
    then (none, w)
    else (a, w)

networks_agree :
    (c : _) → network (some answer) (log_request host c) ≡ network none (log_request host c)
unfolding log_request starts_with
networks_agree (log_write i e) = refl
networks_agree (log_read i) = refl

replay_only_offline_example :
    create_cached_fetch host platform false
      (record (recording none (λ r. r) (λ k r. k)) { replay_only = some true })
      (some memory)
      (network (some answer))
      call
      nothing
    ≡ create_cached_fetch host platform false
        (record (recording none (λ r. r) (λ k r. k)) { replay_only = some true })
        (some memory)
        (network none)
        call
        nothing
unfolding is_production is_local includes get_cache_key_from_url starts_with
replay_only_offline_example =
    replay_only_offline host (some memory) platform false (recording none (λ r. r) (λ k r. k))
      (network (some answer)) (network none) call nothing networks_agree (refl, refl, refl)

run-IsInstalled_example : IsInstalled (native 1) (
    run
      (enable platform ∷ enable platform ∷ disable ∷ [])
      (record { fetch = native 1; original_fetch = none }))
run-IsInstalled_example =
    run-IsInstalled (enable platform ∷ enable platform ∷ disable ∷ []) (native 1)
      (record { fetch = native 1; original_fetch = none }) (inl (refl, refl))
