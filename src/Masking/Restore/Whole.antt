-- ===== src/Masking/Restore/Whole.antt =====
-- frostglass/masking/restore.py: streaming restores what restoring the whole response does, for one
-- surrogate.
use frostglass.Prelude.{
  ℕ, zero, suc, ◌+◌, ◌-◌, ◌<◌, ◌≤◌, ◌≡◌, inl, inr, refl, sym, ap, ap₂, ◌∙◌, false, List, [], ◌∷◌,
  ◌++◌, Str, arith, length, take, drop, leb, Bool-cases, append_assoc, append-nil, ◌==◌, nat_eq,
  leb→lt,
}
use frostglass.Prelude.Dict.{Dict}
use frostglass.Prelude.Sort.{sorted_by}
use frostglass.Masking.Engine.{join}
use frostglass.Masking.Restore.{
  StreamRestorer, restore_text, replace_all, longest, new_restorer, adjust, adjust_all, emit,
  feed_buffered, feed, finish, yield_text, stream_from, restore_stream,
}
use frostglass.Prelude.Strings.{replace, replace_from}
use frostglass.Masking.Restore.Cut.{
  NoOverlap, Clear, replace_from-split, adjust-Adjusted, cut-Clear, Clear-append, take-before,
  drop-before,
}

join-yield : (e : Str) (later : List Str) → join (yield_text e later) ≡ e ++ join later
unfolding join yield_text
join-yield [] later = refl
join-yield (c ∷ e) later = refl

-- The mapping of one surrogate
abbrev pub single : ℕ → Str → Str → Dict Str Str
single o old new = (o ∷ old, new) ∷ []

module _ (o : ℕ) (old new : Str) (apart : NoOverlap (o ∷ old)) where
  restore_text-single :
      (text : Str) → restore_text text (single o old new) ≡ replace_from (o ∷ old) new 0 text
  unfolding restore_text replace_all sorted_by replace
  restore_text-single text = refl

  -- What a `feed` writes, and what its buffer is restored to with what is to come
  Keeps : StreamRestorer → Str × StreamRestorer → Type 0
  Keeps r out =
      ((rest : Str)
        → replace_from (o ∷ old) new 0 (r.buffer ++ rest)
          ≡ out.0 ++ replace_from (o ∷ old) new 0 (out.1.buffer ++ rest))
      × (out.1.reverse_map ≡ r.reverse_map)
      × (out.1.tail_length ≡ r.tail_length)

  emit-Keeps :
      (r : StreamRestorer) (k : ℕ)
      → r.reverse_map ≡ single o old new
      → k ≤ length r.buffer
      → ((rest : Str) → Clear (o ∷ old) k (r.buffer ++ rest))
      → Keeps r (emit r k)
  unfolding emit Keeps Clear
  emit-Keeps r zero m h clear = ((λ rest. refl), refl, refl)
  emit-Keeps r (suc k) m h clear = (
    (λ rest.
        replace_from-split o old new 0 (suc k) (r.buffer ++ rest) (omega arith)
          (λ p a d e. clear rest p d e)
        ∙ ap₂ (λ x y. replace_from (o ∷ old) new 0 x ++ replace_from (o ∷ old) new 0 y)
            (take-before (suc k) r.buffer rest h) (drop-before (suc k) r.buffer rest h)
        ∙ ap (λ x. x ++ replace_from (o ∷ old) new 0 (drop (suc k) r.buffer ++ rest))
            (sym (restore_text-single (take (suc k) r.buffer))
              ∙ ap (restore_text (take (suc k) r.buffer)) (sym m))),
    refl,
    refl,
  )

  feed_buffered-Keeps :
      (r : StreamRestorer)
      → r.reverse_map ≡ single o old new
      → r.tail_length ≡ length (o ∷ old)
      → Keeps r (feed_buffered r)
  unfolding feed_buffered adjust_all Keeps
  feed_buffered-Keeps r m tail =
      let some_tail : (r.tail_length == 0) ≡ false = ground (arith, tail) in
      elim (Bool-cases (leb (length r.buffer) r.tail_length)) [
        | inl e ↦ rw (some_tail, e) ((λ rest. refl), refl, refl)
        | inr e ↦
            let long : length (o ∷ old) < length r.buffer = rw tail at (leb→lt _ _ e) in
            let cut = length r.buffer - r.tail_length in
            let k = adjust_all r.reverse_map r.buffer cut in
            let moved : k ≡ adjust (o ∷ old) 0 cut r.buffer =
              ap (λ n. adjust_all n r.buffer cut) m in
            let (below, clear) =
              cut-Clear (o ∷ old) cut r.buffer apart
                (adjust-Adjusted (o ∷ old) (omega arith) 0 cut r.buffer) in
            let inside : k + length (o ∷ old) ≤ length r.buffer =
              omega (arith, moved, below, tail, long) in
            rw (some_tail, e)
              (emit-Keeps r k m (omega (arith, inside))
                (λ rest. Clear-append (o ∷ old) k r.buffer rest inside (rw moved clear)))
      ]

  stream_from-whole :
      (r : StreamRestorer) (chunks : List Str)
      → r.reverse_map ≡ single o old new
      → r.tail_length ≡ length (o ∷ old)
      → join (stream_from r chunks) ≡ replace_from (o ∷ old) new 0 (r.buffer ++ join chunks)
  unfolding stream_from feed finish join Keeps
  stream_from-whole r [] m tail =
      join-yield (finish r).0 []
      ∙ append-nil _
      ∙ ap (restore_text r.buffer) m
      ∙ restore_text-single r.buffer
      ∙ ap (replace_from (o ∷ old) new 0) (sym (append-nil r.buffer))
  stream_from-whole r (chunk ∷ chunks) m tail =
      let fed : StreamRestorer = record r { buffer = r.buffer ++ chunk } in
      let (kept, map_kept, tail_kept) = feed_buffered-Keeps fed m tail in
      join-yield (feed r chunk).0 (stream_from (feed r chunk).1 chunks)
      ∙ ap (λ x. (feed r chunk).0 ++ x)
          (stream_from-whole (feed r chunk).1 chunks (map_kept ∙ m) (tail_kept ∙ tail))
      ∙ sym (kept (join chunks))
      ∙ ap (replace_from (o ∷ old) new 0) (append_assoc r.buffer chunk (join chunks))

  -- With one surrogate in the mapping, of at most 256 characters and whose occurrences cannot overlap, the
  -- streamed text is the response with every occurrence of the surrogate replaced by the original, however
  -- the response is cut into chunks; and so is the text that `restore_text` gives for the whole response.
  pub restore_stream-replace :
      (chunks : List Str)
      → length (o ∷ old) ≤ 256
      → (join (restore_stream chunks (single o old new)) ≡ replace (join chunks) (o ∷ old) new)
        × (restore_text (join chunks) (single o old new) ≡ replace (join chunks) (o ∷ old) new)
  unfolding restore_stream new_restorer longest replace
  restore_stream-replace chunks h = (
    stream_from-whole (new_restorer (single o old new) 256) chunks refl
        (unfold new_restorer longest in omega (arith, h)),
    restore_text-single (join chunks),
  )
