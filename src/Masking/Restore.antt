-- ===== src/Masking/Restore.antt =====
-- frostglass/masking/restore.py
pub mod Cut
pub mod Whole
use frostglass.Prelude.{
  ℕ, zero, ◌+◌, ◌-◌, Bool, ◌&&◌, Option, none, some, List, [], ◌∷◌, ◌++◌, map, Str, str_eq, ltb,
  leb, length, take, drop, if◌then◌else◌, max, min, nat_eq, ◌==◌,
}
use frostglass.Prelude.Dict
use frostglass.Prelude.Dict.{Dict}
use frostglass.Prelude.Sort.{sorted_by}
use frostglass.Prelude.Strings.{starts_with, replace}

-- `key=len, reverse=True`
unfoldable pub longest_first : Str × Str → Str × Str → Bool
longest_first a b = leb (length b.0) (length a.0)

-- The loop of `restore_text`
unfoldable pub replace_all : List (Str × Str) → Str → Str
replace_all [] restored = restored
replace_all ((surrogate, original) ∷ rest) restored =
    replace_all rest (replace restored surrogate original)

-- `restore_text`; sorting the entries sorts the keys, and each key has its own value
unfoldable pub restore_text : Str → Dict Str Str → Str
unfolding replace_all longest_first
restore_text text reverse_map = replace_all (sorted_by longest_first reverse_map) text

pub record StreamRestorer : Type 0 where
  pub reverse_map : Dict Str Str
  pub tail_length : ℕ
  pub buffer : Str

-- `max((len(s) for s in reverse_map), default=0)`
unfoldable pub longest : Dict Str Str → ℕ
longest [] = 0
longest ((surrogate, original) ∷ rest) = max (length surrogate) (longest rest)

-- `StreamRestorer.__init__`
unfoldable pub new_restorer : Dict Str Str → ℕ → StreamRestorer
unfolding longest
new_restorer reverse_map latency_cap = record {
  reverse_map = reverse_map;
  tail_length = min (longest reverse_map) latency_cap;
  buffer = [];
}

-- The `while` over the occurrences of one surrogate. They are met from the left: `find` from
-- `start + 1` gives the next position at which the surrogate stands.
unfoldable pub adjust : Str → ℕ → ℕ → Str → ℕ
adjust surrogate offset cut [] = cut
adjust surrogate offset cut (c ∷ rest) =
    adjust surrogate (offset + 1)
      (if starts_with surrogate (c ∷ rest) && ltb offset cut && ltb cut (offset + length surrogate)
        then offset
        else cut)
      rest

-- The `for` over the surrogates
unfoldable pub adjust_all : Dict Str Str → Str → ℕ → ℕ
adjust_all [] buffer cut = cut
adjust_all ((surrogate, original) ∷ rest) buffer cut =
    adjust_all rest buffer (adjust surrogate 0 cut buffer)

-- What `feed` does once there is a cut
unfoldable pub emit : StreamRestorer → ℕ → Str × StreamRestorer
emit r zero = ([], r)
emit r cut =
    (restore_text (take cut r.buffer) r.reverse_map, record r { buffer = drop cut r.buffer })

-- `feed`, after the chunk was added to the buffer
unfoldable pub feed_buffered : StreamRestorer → Str × StreamRestorer
unfolding emit adjust_all adjust
feed_buffered r =
    if r.tail_length == 0
    then (r.buffer, record r { buffer = [] })
    else if leb (length r.buffer) r.tail_length
    then ([], r)
    else emit r (adjust_all r.reverse_map r.buffer (length r.buffer - r.tail_length))

-- `feed`
unfoldable pub feed : StreamRestorer → Str → Str × StreamRestorer
unfolding feed_buffered
feed r chunk = feed_buffered (record r { buffer = r.buffer ++ chunk })

-- `finish`
unfoldable pub finish : StreamRestorer → Str × StreamRestorer
finish r = (restore_text r.buffer r.reverse_map, record r { buffer = [] })

-- `if emitted: yield emitted`
unfoldable pub yield_text : Str → List Str → List Str
yield_text [] later = later
yield_text (c ∷ emitted) later = (c ∷ emitted) ∷ later

-- The loop of `restore_stream`, and its end
unfoldable pub stream_from : StreamRestorer → List Str → List Str
unfolding feed finish yield_text
stream_from r [] = yield_text (finish r).0 []
stream_from r (chunk ∷ chunks) = yield_text (feed r chunk).0 (stream_from (feed r chunk).1 chunks)

-- `restore_stream`
unfoldable pub restore_stream : List Str → Dict Str Str → List Str
unfolding new_restorer stream_from
restore_stream chunks reverse_map = stream_from (new_restorer reverse_map 256) chunks
