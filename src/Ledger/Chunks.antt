-- ===== src/Ledger/Chunks.antt =====
-- insertChunked of packages/claims/src/ledger/build.ts writes every row once: the fuel suffices, and the
-- chunks come to one pass over the rows.
use ar_io_solana_attestor.Prelude.{
  ℕ, zero, suc, ◌≤◌, ◌≡◌, refl, ◌∙◌, String, some, List, [], ◌∷◌, false, arith, take, drop, map,
  length, ap,
}
use ar_io_solana_attestor.Dispatch.{any_eq}
use ar_io_solana_attestor.Ledger.Write.{upsert_all, has_repeats, insert_chunked}

module _ {ℓ κ} {R : Type ℓ} {T : Type κ} (key_of : R → String) (upsert : R → T → T) where
  any_eq-take :
      (s : String) (n : ℕ) (rows : List R)
      → any_eq s (map key_of rows) ≡ false
      → any_eq s (map key_of (take n rows)) ≡ false
  unfolding any_eq
  any_eq-take s zero rows h = refl
  any_eq-take s (suc n) [] h = refl
  any_eq-take s (suc n) (r ∷ rows) h = ground (arith, any_eq-take s n rows)

  has_repeats-take :
      (n : ℕ) (rows : List R)
      → has_repeats key_of upsert rows ≡ false
      → has_repeats key_of upsert (take n rows) ≡ false
  unfolding has_repeats
  has_repeats-take zero rows h = refl
  has_repeats-take (suc n) [] h = refl
  has_repeats-take (suc n) (r ∷ rows) h =
      ground (arith, any_eq-take (key_of r) n rows, has_repeats-take n rows)

  has_repeats-drop :
      (n : ℕ) (rows : List R)
      → has_repeats key_of upsert rows ≡ false
      → has_repeats key_of upsert (drop n rows) ≡ false
  unfolding has_repeats
  has_repeats-drop zero rows h = h
  has_repeats-drop (suc n) [] h = refl
  has_repeats-drop (suc n) (r ∷ rows) h = has_repeats-drop n rows (ground arith)

  upsert_all-drop-take :
      (n : ℕ) (rows : List R) (table : T)
      → upsert_all key_of upsert (drop n rows) (upsert_all key_of upsert (take n rows) table)
        ≡ upsert_all key_of upsert rows table
  unfolding upsert_all
  upsert_all-drop-take zero rows table = refl
  upsert_all-drop-take (suc n) [] table = refl
  upsert_all-drop-take (suc n) (r ∷ rows) table = upsert_all-drop-take n rows (upsert r table)

  upsert_all-nil : (table : T) → table ≡ upsert_all key_of upsert [] table
  unfolding upsert_all
  upsert_all-nil table = refl

  length-drop-le : (n : ℕ) (rows : List R) → length (drop n rows) ≤ length rows
  length-drop-le zero rows = omega arith
  length-drop-le (suc n) [] = omega arith
  length-drop-le (suc n) (r ∷ rows) = omega (arith, length-drop-le n rows)

  -- Rows of distinct keys are all written, whatever the size of a chunk, if it is not 0.
  pub insert_chunked_total :
      (fuel size : ℕ) (rows : List R) (table : T)
      → length rows ≤ fuel
      → has_repeats key_of upsert rows ≡ false
      → insert_chunked key_of upsert fuel (suc size) rows table
        ≡ some (upsert_all key_of upsert rows table)
  unfolding insert_chunked
  insert_chunked_total fuel size [] table h u = ap some (upsert_all-nil table)
  insert_chunked_total zero size (r ∷ rows) table h u = absurd (omega arith)
  insert_chunked_total (suc fuel) size (r ∷ rows) table h u =
      let all = r ∷ rows in
      rw (has_repeats-take (suc size) all u) (
        insert_chunked_total fuel size (drop size rows)
          (upsert_all key_of upsert (take (suc size) all) table)
          (omega (arith, length-drop-le size rows)) (has_repeats-drop (suc size) all u)
        ∙ ap some (upsert_all-drop-take (suc size) all table))
