-- ===== src/Lib.antt =====
-- Packages of effect-native: the event relay, the node map, the Tailwind classes and the style bridge of
-- opentui-dom, the cached fetch of fetch-hooks, the titles of note and the data structures of patterns.
--
-- But for the style bridge, which uses the Tailwind classes, and the titles, which use the slugs of
-- schemas, the parts are independent of each other; what they share here is the language they are written
-- in, which stands in Prelude: strings as lists of UTF-16 code units (Prelude/Strings), arrays as lists
-- (Prelude/Lists), tests on numbers (Prelude/Tests) and signed integers (Prelude/Int).
--
-- EventRelay: packages/opentui-dom/src/bridge/event-relay.ts. A terminal key press comes from the
-- renderer to `handleKeypress`, which turns it into DOM events, moves the focus, edits the focused text
-- field and scrolls.
--   EventRelay/World       the variables of `createEventRelay` (State), the document, and Host: the DOM
--                          and the renderer, as functions that the relay calls
--   EventRelay/Page        the document as the relay reads it: isFocusable, isElementVisible
--   EventRelay/Keys        the tables of key names, createKeyboardEvent
--   EventRelay/Words       findWordBoundaryBackward, findWordBoundaryForward
--   EventRelay/Readline    the readline shortcuts and the insertion of a character
--   EventRelay/Fields      text fields and radios, as the key press reads and writes them
--   EventRelay/Focus       getFocusableElements: groups of radios, document order, the next place
--   EventRelay/Navigation  the focus trap, Tab, the access keys
--   EventRelay/Scroll      scrollIntoView
--   EventRelay/Keypress    handleKeypress, as a sequence of stages any of which may end it
--   EventRelay/Lifecycle   attach, detach and the other methods that the relay returns
-- The walk along the parents of an element has the number of the nodes as fuel; where no element lies
-- in itself this is enough, since the walk meets no node twice (EventRelay/Page/Visible). What DOM event
-- handlers do is left to the Host, so the theorems hold whatever they do, but for the conditions that a
-- theorem names. A selection that the relay writes is cut off at the end of the text, as the DOM does.
-- Left out are the rows above the first one of a scrolled content, the access keys that make a selector
-- invalid (a quote, a backslash), for which the source throws, and the log of the debug mode.
--
-- NodeMap: packages/opentui-dom/src/bridge/node-map.ts, with its two maps as functions. Which nodes were
-- collected is a parameter of the operations that read a weak reference.
--
-- Tailwind: packages/opentui-dom/src/bridge/tailwind-mapper.ts.
--   Tailwind/Values    TuiStyleProps, Object.assign
--   Tailwind/Tables, Tailwind/Palette, Tailwind/Classes
--                      the tables; their objects have the members of Object.prototype besides
--   Tailwind/Numbers   parseFloat, parseInt and the rounding of what they give
--   Tailwind/Parse     parseSpacing, parseColor, parseSizeValue
--   Tailwind/Patterns  patternMappers
--   Tailwind/Mapper    mapSingleClass, tailwindToTui; an exception is `none`
--
-- StyleBridge: packages/opentui-dom/src/bridge/style-bridge.ts, which uses the former.
--   StyleBridge/Attributes  getDataAttributes
--   StyleBridge/Theme       resolveCssVars and mapThemeClass; the text of a member of Object.prototype
--                           is a parameter
--   StyleBridge/Bridge      getStyleProps, applyStyles
--
-- FetchHooks: packages/fetch-hooks/src. A fetch function that records each response under the hash of its
-- request and replays it at the next call. index.ts asks the cache manager, this one a storage, and the
-- storage the disk; a stream is recorded as timed chunks, which are stored as JSON lines.
--   FetchHooks/Sse           sse-handler.ts: isSSEResponse, extractAllSSEItems
--   FetchHooks/Jsonl         timedChunksToJsonl, jsonlToTimedChunks; the field named `data_` is `data`
--   FetchHooks/Jsonl/Replay  recordStreamWithTiming, replayStreamWithTiming and
--                            replayStreamFromAsyncIterable, as the sequence of what they do
--   FetchHooks/Headers       the filter of the headers in request-hasher.ts, and environment.ts
--   FetchHooks/Io            actions on the state of the host, which an exception may end (Option), and
--                            node:fs and node:path as a record of functions
--   FetchHooks/Types         types.ts
--   FetchHooks/Implements    the abstract cache (Contents) and what it is for a storage to implement it
--   FetchHooks/FlatFiles     flat-file-storage.ts; its child modules carry the proof that it implements
--                            the abstract cache, on a disk that does what FlatFiles/Disk says
--   FetchHooks/DataUrls      binary-extractor.ts, the two regular expressions as functions
--   FetchHooks/Files         filesystem-storage.ts
--   FetchHooks/Host          network, clock, digest and JSON as a record of functions; `_internalFetch`,
--                            the function that asks the log server, is a field that createCachedFetch sets
--   FetchHooks/Cache         cache-manager.ts: Legacy (the files used without a storage, the log server),
--                            Store (storeRequest, storeResponse) and Load (getCachedResponse)
--   FetchHooks/CachedFetch   index.ts: createCachedFetch, enableDevFetchCache, disableDevFetchCache; no
--                            second call of createCachedFetch sets `_internalFetch` anew in between
-- A promise is an action that has ended when the next one starts, so calls do not interleave. JSON is a
-- record of functions; what the code relies on is a hypothesis of the theorems. A delay is an integer,
-- since a clock may be set back. `toLowerCase`, base64 and UTF-8 are parameters. A number has at most as
-- many digits as its value, which is the fuel of `decimal`. A live stream is a number, and a replayed one
-- the sequence of what it waits and sends.
--
-- Note: the slug of a title (Note/Slug, packages/schemas/src/Slug.ts, with `toLowerCase` as a parameter)
-- and the words of a title (Note/Validate, packages/note/src/Validate.ts).
--
-- Patterns: packages/patterns/src/internal. The public modules pass these functions on.
--   Patterns/LinkedList  list.ts, the size of a node being a field of its own, as it is there
--   Patterns/Tree        tree.ts, likewise
--   Patterns/Thing       thing.ts: the tags, sorted and without repetitions
-- Equality and the hash of elements are parameters. forEachEffect is the sequence of the calls that it
-- makes of its effect, when none of them fails.
--
-- Not modelled: the digest of a request in fetch-hooks (node:crypto), the Codex session of patterns, the
-- conversion of the DOM and the themes of opentui-dom (the latter compute colors in floating point), the
-- testing libraries, the debugger, the files of note, and the packages that send SQL to a database, load
-- native libraries or start processes.
pub mod EventRelay
pub mod FetchHooks
pub mod NodeMap
pub mod Patterns
pub mod Tailwind
pub mod Note
pub mod StyleBridge
pub mod Prelude
