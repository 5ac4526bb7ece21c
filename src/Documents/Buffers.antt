-- ===== src/Documents/Buffers.antt =====
-- The growing buffer of `readCapped` in src/modules/documents/document-download.service.ts.
use mathlib.Core.List.{append_assoc}
use gov_jobs_backend.Base.{
  ℕ, zero, suc, ◌+◌, ◌*◌, ◌≤◌, ◌≡◌, refl, sym, ap, ◌∙◌, inl, inr, min, max, true, false, Bool-cases,
  some, List, [], ◌∷◌, ◌++◌, length, take, drop, length-take, length-append, length-drop, ◌==◌, ltb,
  ltb_iff, leb_iff, String, Text, Attempt, ok, error, arith,
}
use gov_jobs_backend.Documents.{
  Stream, done, broken, no_value, chunk, new_array, write_at, grow, read_chunks, read_capped,
  filled_part, empty_body, too_long, initial_buffer_size,
}

-- The reference: what came is put together, and counted against the limit with each value.
unfoldable pub collect : ℕ → Stream → List ℕ → Attempt Text (List ℕ)
collect limit done bytes = ok bytes
collect limit (broken message) bytes = error message
collect limit (no_value s) bytes = collect limit s bytes
collect limit (chunk value s) bytes = elim (ltb limit (length (bytes ++ value))) [
  | true ↦ error (too_long limit)
  | false ↦ collect limit s (bytes ++ value)
]

take-append_exact : (n : ℕ) (xs ys : List ℕ) → length xs ≡ n → take n (xs ++ ys) ≡ xs
take-append_exact zero [] ys h = refl
take-append_exact zero (x ∷ xs) ys h = absurd (omega arith)
take-append_exact (suc n) [] ys h = absurd (omega arith)
take-append_exact (suc n) (x ∷ xs) ys h = ap (◌∷◌ x) (take-append_exact n xs ys (omega arith))

length-new_array : (n : ℕ) → length (new_array n) ≡ n
unfolding new_array
length-new_array zero = refl
length-new_array (suc n) = omega (arith, length-new_array n)

-- A write inside the array is done, keeps its length and what stands before it.
pub record Written (b : List ℕ) (offset : ℕ) (value : List ℕ) : Type 0 where
  pub after : List ℕ
  pub writes : write_at b offset value ≡ some after
  pub filled : take (offset + length value) after ≡ take offset b ++ value
  pub same_length : length after ≡ length b

written :
    (b : List ℕ) (offset : ℕ) (value : List ℕ)
    → offset + length value ≤ length b
    → Written b offset value
unfolding write_at
written b offset value h =
    let n = offset + length value in
    let front = take offset b in
    let l : length (front ++ value) ≡ n =
      omega (arith, length-append front value, length-take offset b) in
    record {
      after = front ++ (value ++ drop n b);
      writes = rw ((leb_iff n (length b)).1 h);
      filled =
          ap (take n) (sym (append_assoc front value (drop n b)))
          ∙ take-append_exact n (front ++ value) (drop n b) l;
      same_length = omega (
        arith,
        length-append front (value ++ drop n b),
        length-append value (drop n b),
        length-take offset b,
        length-drop n b,
      );
    }

-- Growing makes room for `total` bytes and keeps the first `kept`.
pub record Grown (limit total kept : ℕ) (b : List ℕ) : Type 0 where
  pub after : List ℕ
  pub grows : grow limit total kept b ≡ some after
  pub keeps : take kept after ≡ take kept b
  pub room : total ≤ length after
  pub bounded : length after ≤ max (length b) limit

grown :
    (limit total kept : ℕ) (b : List ℕ)
    → total ≤ limit
    → kept ≤ total
    → kept ≤ length b
    → Grown limit total kept b
unfolding grow
grown limit total kept b fits kept_le kept_in = elim (Bool-cases (ltb (length b) total)) [
  | inl small ↦
      let size = min (max (length b * 2) total) limit in
      let lt = (ltb_iff (length b) total).0 small in
      let len = length-take kept b in
      let w = written (new_array size) 0 (take kept b) (omega (arith, length-new_array size)) in
      let start : kept ≡ 0 + length (take kept b) = omega (arith, len) in
      record {
        after = w.after;
        grows = rw small w.writes;
        keeps = ap (λ n. take n w.after) start ∙ w.filled;
        room = omega (arith, w.same_length, length-new_array size);
        bounded = omega (arith, w.same_length, length-new_array size);
      }
  | inr enough ↦ record {
    after = b;
    grows = rw enough;
    keeps = refl;
    room = ground (arith);
    bounded = omega arith;
  }
]

read_chunks_over :
    (limit : ℕ) (value : List ℕ) (s : Stream) (buffer : List ℕ) (total : ℕ)
    → ltb limit (total + length value) ≡ true
    → read_chunks limit (chunk value s) buffer total ≡ error (too_long limit)
unfolding read_chunks
read_chunks_over limit value s buffer total e = rw (e, read_chunks)

read_chunks_next :
    (limit : ℕ) (value : List ℕ) (s : Stream) (buffer : List ℕ) (total : ℕ) (grown filled : List ℕ)
    → ltb limit (total + length value) ≡ false
    → grow limit (total + length value) total buffer ≡ some grown
    → write_at grown total value ≡ some filled
    → read_chunks limit (chunk value s) buffer total
      ≡ read_chunks limit s filled (total + length value)
unfolding read_chunks
read_chunks_next limit value s buffer total grown filled e g w =
    rw (e, read_chunks) (rw (g, read_chunks) (rw (w, read_chunks)))

collect_over :
    (limit : ℕ) (value : List ℕ) (s : Stream) (bytes : List ℕ)
    → ltb limit (length (bytes ++ value)) ≡ true
    → collect limit (chunk value s) bytes ≡ error (too_long limit)
unfolding collect
collect_over limit value s bytes e = rw (e, collect)

collect_next :
    (limit : ℕ) (value : List ℕ) (s : Stream) (bytes : List ℕ)
    → ltb limit (length (bytes ++ value)) ≡ false
    → collect limit (chunk value s) bytes ≡ collect limit s (bytes ++ value)
unfolding collect
collect_next limit value s bytes e = rw (e, collect)

-- The buffer holds what the reference collected, within a bound on its size.
abbrev Agrees : ℕ → Attempt Text (List ℕ × ℕ) → Attempt Text (List ℕ) → Type 0
Agrees size (ok (buffer, total)) (ok bytes) =
    (take total buffer ≡ bytes) × (total ≡ length bytes) × (length buffer ≤ size)
Agrees size (error e) (error e') = e ≡ e'
Agrees size (ok r) (error e) = ⊥
Agrees size (error e) (ok r) = ⊥

read_chunks-Agrees :
    (limit size : ℕ) (s : Stream) (buffer : List ℕ) (total : ℕ) (bytes : List ℕ)
    → limit ≤ size
    → length buffer ≤ size
    → total ≤ length buffer
    → take total buffer ≡ bytes
    → total ≡ length bytes
    → Agrees size (read_chunks limit s buffer total) (collect limit s bytes)
unfolding read_chunks collect
read_chunks-Agrees limit size done buffer total bytes hl hs room same len = (same, len, hs)
read_chunks-Agrees limit size (broken message) buffer total bytes hl hs room same len = refl
read_chunks-Agrees limit size (no_value s) buffer total bytes hl hs room same len =
    read_chunks-Agrees limit size s buffer total bytes hl hs room same len
read_chunks-Agrees limit size (chunk value s) buffer total bytes hl hs room same len =
    let longer : length (bytes ++ value) ≡ total + length value =
      omega (arith, length-append bytes value) in
    elim (Bool-cases (ltb limit (total + length value))) [
      | inl over ↦
          rw
            (
              read_chunks_over limit value s buffer total over,
              collect_over limit value s bytes (ap (ltb limit) longer ∙ over),
            )
            refl
      | inr fits ↦
          let g =
            grown limit (total + length value) total buffer (ground arith) (omega arith) room in
          let w = written g.after total value g.room in
          let next =
            read_chunks-Agrees limit size s w.after (total + length value) (bytes ++ value) hl
              (omega (arith, w.same_length, g.bounded)) (omega (arith, w.same_length, g.room))
              (w.filled ∙ ap (λ front. front ++ value) (g.keeps ∙ same)) (sym longer) in
          rw
            (
              read_chunks_next limit value s buffer total g.after w.after fits g.grows w.writes,
              collect_next limit value s bytes (ap (ltb limit) longer ∙ fits),
            )
            next
    ]

abbrev pub reject_empty : String → Attempt Text (List ℕ) → Attempt Text (List ℕ)
reject_empty url (error e) = error e
reject_empty url (ok []) = error (empty_body url)
reject_empty url (ok (b ∷ bytes)) = ok (b ∷ bytes)

filled_part-Agrees :
    (size : ℕ) (url : String) (r : Attempt Text (List ℕ × ℕ)) (c : Attempt Text (List ℕ))
    → Agrees size r c
    → filled_part url r ≡ reject_empty url c
filled_part-Agrees size url (error e) (error e') h = ap error h
filled_part-Agrees size url (error e) (ok bytes) h = absurd h
filled_part-Agrees size url (ok r) (error e) h = absurd h
filled_part-Agrees size url (ok (buffer, total)) (ok []) (same, len, bound) = rw len
filled_part-Agrees size url (ok (buffer, total)) (ok (b ∷ bytes)) (same, len, bound) =
    let some_bytes : (total == 0) ≡ false = ground arith in rw (some_bytes, same)

-- For any stream of values, of any sizes, and any limit, the growing buffer gives what putting all
-- values together gives: no write falls outside the buffer, no byte is lost or moved, and the
-- reading is refused at the first value that passes the limit, at a break of the stream, and when
-- nothing came.
pub read_capped-eq-collect :
    (limit : ℕ) (url : String) (s : Stream)
    → read_capped limit url s ≡ reject_empty url (collect limit s [])
unfolding read_capped
read_capped-eq-collect limit url s = filled_part-Agrees (max initial_buffer_size limit) url _ _ (
    read_chunks-Agrees limit (max initial_buffer_size limit) s (new_array initial_buffer_size) 0 []
      (omega arith) (omega (arith, length-new_array initial_buffer_size)) (omega arith) refl refl)
