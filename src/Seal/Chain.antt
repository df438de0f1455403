-- ===== src/Seal/Chain.antt =====
-- The chain of a sealing: it returns, its trace has a link for each chunk, it can be taken up again
-- at any link, and it opens every leaf of the sealed root.
use he_thong_chung_minh_luu.Prelude.{
  >>=-eq-ok, List, Result, [], ap, ap₂, arith, err, get_or, length, ok, ok_inj, refl, subst, suc,
  sym, true, zero, ℕ, ◌++◌, ◌+◌, ◌<◌, ◌>>=◌, ◌^◌, ◌∙◌, ◌∷◌, ◌≡◌, ◌≤◌,
}
use he_thong_chung_minh_luu.Bytes.{Bytes, le_digits}
use he_thong_chung_minh_luu.Bytes.Fields.{to_bytes_le_lem}
use he_thong_chung_minh_luu.Crypto.{Hasher, merkle_proof, merkle_root, merkle_verify}
use he_thong_chung_minh_luu.Crypto.Merkle.{merkle_verify-merkle_proof}
use he_thong_chung_minh_luu.Seal.{
  SealResult, Trace, absorb, first_size, fold_limbs, linked, no_trace, pieces, result_of, seal,
  seal_loop, seal_step,
}

-- Two traces, one behind the other.
abbrev pub joined : Trace → Trace → Trace
joined t u = record {
  s_values = t.s_values ++ u.s_values;
  r_values = t.r_values ++ u.r_values;
  leaves = t.leaves ++ u.leaves;
}

-- The last link, or the one before the first.
abbrev pub last_or : Bytes → List Bytes → Bytes
last_or s [] = s
last_or s (x ∷ xs) = last_or x xs

-- The leaves that `R_i` and `S_i` hash to.
abbrev pub leaves_of : Hasher → List Bytes → List Bytes → List Bytes
leaves_of hasher (r ∷ rs) (s ∷ ss) = hasher (r ∷ s ∷ []) ∷ leaves_of hasher rs ss
leaves_of hasher _ _ = []

-- The trace has one link for each of `n` chunks, and its leaves are those of its links.
pub record IsTrace (hasher : Hasher) (n : ℕ) (t : Trace) : Type 0 where
  pub links : length t.s_values ≡ n
  pub values : length t.r_values ≡ n
  pub opened : t.leaves ≡ leaves_of hasher t.r_values t.s_values

module _ (hasher : Hasher) where
  pub linked-IsTrace :
      (n : ℕ) (r s : Bytes) (t : Trace)
      → IsTrace hasher n t
      → IsTrace hasher (n + 1) (linked hasher (r, s) t)
  linked-IsTrace n r s t h = record {
    links = omega (arith, h.links);
    values = omega (arith, h.values);
    opened = ap (◌∷◌ (hasher (r ∷ s ∷ []))) h.opened;
  }

  length-leaves_of :
      (rs ss : List Bytes) (n : ℕ)
      → length rs ≡ n
      → length ss ≡ n
      → length (leaves_of hasher rs ss) ≡ n
  length-leaves_of [] ss n h k = h
  length-leaves_of (r ∷ rs) [] n h k = absurd (omega arith)
  length-leaves_of (r ∷ rs) (s ∷ ss) zero h k = absurd (omega arith)
  length-leaves_of (r ∷ rs) (s ∷ ss) (suc n) h k =
      ap suc (length-leaves_of rs ss n (omega arith) (omega arith))

  get_or-leaves_of :
      (rs ss : List Bytes) (i : ℕ)
      → i < length rs
      → i < length ss
      → get_or (leaves_of hasher rs ss) i [] ≡ hasher (get_or rs i [] ∷ get_or ss i [] ∷ [])
  get_or-leaves_of [] ss i h k = absurd (omega arith)
  get_or-leaves_of (r ∷ rs) [] i h k = absurd (omega arith)
  get_or-leaves_of (r ∷ rs) (s ∷ ss) zero h k = refl
  get_or-leaves_of (r ∷ rs) (s ∷ ss) (suc i) h k =
      get_or-leaves_of rs ss i (omega arith) (omega arith)

  fold_limbs_lem :
      (chunk : Bytes) (size : ℕ)
      → size < 256 ^ 8
      → (d : Bytes) × (fold_limbs hasher chunk size ≡ ok d)
  unfolding fold_limbs
  fold_limbs_lem chunk size h =
      let start : Bytes = hasher (le_digits 8 size ∷ []) in
      (absorb hasher 31 (pieces (length chunk) 31) chunk start, rw (to_bytes_le_lem 8 size h) refl)

  seal_step_lem :
      (size : ℕ) (replica s chunk : Bytes) (i : ℕ)
      → size < 256 ^ 8
      → i < 256 ^ 8
      → (link : Bytes × Bytes) × (seal_step hasher size replica i s chunk ≡ ok link)
  unfolding seal_step
  seal_step_lem size replica s chunk i h k =
      let (d, p) = fold_limbs_lem chunk size h in
      let a : Bytes = hasher (d ∷ s ∷ []) in
      let r : Bytes = hasher (a ∷ hasher (le_digits 8 i ∷ replica ∷ []) ∷ []) in
      ((r, hasher (s ∷ r ∷ [])), rw (p, to_bytes_le_lem 8 i k) refl)

  seal_loop_lem :
      (size : ℕ) (replica s : Bytes) (i : ℕ) (cs : List Bytes)
      → size < 256 ^ 8
      → i + length cs ≤ 256 ^ 8
      → (t : Trace) × (seal_loop hasher size replica i s cs ≡ ok t) × IsTrace hasher (length cs) t
  unfolding seal_loop
  seal_loop_lem size replica s i [] h k =
      (no_trace, refl, record { links = refl; values = refl; opened = refl })
  seal_loop_lem size replica s i (c ∷ cs) h k =
      let (link, p) = seal_step_lem size replica s c i h (omega arith) in
      let (t, q, v) = seal_loop_lem size replica link.1 (i + 1) cs h (omega arith) in
      (
        linked hasher link t,
        rw (p, q) refl,
        subst (λ n. IsTrace hasher n (linked hasher link t)) (omega arith)
            (linked-IsTrace (length cs) link.0 link.1 t v),
      )

  -- Putting a link in front, and a trace behind.
  linked-joined :
      (r s : Bytes) (t : Trace) (x : Result Trace)
      → ((x >>= (λ u. ok (joined t u))) >>= (λ v. ok (linked hasher (r, s) v)))
        ≡ (x >>= (λ u. ok (joined (linked hasher (r, s) t) u)))
  linked-joined r s t (err e) = refl
  linked-joined r s t (ok u) = refl

  joined_nothing : (x : Result Trace) → x ≡ (x >>= (λ u. ok (joined no_trace u)))
  joined_nothing (err e) = refl
  joined_nothing (ok u) = refl

  -- What the second run gives, from the last link of the first.
  abbrev pub resumed : ℕ → Bytes → ℕ → Bytes → List Bytes → Trace → Result Trace
  resumed size replica i s ds t =
      seal_loop hasher size replica i (last_or s t.s_values) ds >>= (λ u. ok (joined t u))

  -- Sealing the chunks of a list is the same in one run and in two, of which the second goes on from
  -- the last link of the first: a provider that keeps one link rebuilds all that follow it without
  -- the chunks before it.
  pub seal_loop-append :
      (size : ℕ) (replica s : Bytes) (i : ℕ) (cs ds : List Bytes) (t : Trace)
      → seal_loop hasher size replica i s cs ≡ ok t
      → seal_loop hasher size replica i s (cs ++ ds) ≡ resumed size replica (i + length cs) s ds t
  unfolding seal_loop
  seal_loop-append size replica s i [] ds t h =
      let at_start : i ≡ i + 0 = omega arith in
      joined_nothing (seal_loop hasher size replica i s ds)
      ∙ ap (λ k. resumed size replica k s ds no_trace) at_start
      ∙ ap (resumed size replica (i + 0) s ds) (ok_inj h)
  seal_loop-append size replica s i (c ∷ cs) ds t h =
      let (link, p, h1) = >>=-eq-ok (seal_step hasher size replica i s c) _ h in
      let (u, q, h2) = >>=-eq-ok (seal_loop hasher size replica (i + 1) link.1 cs) _ h1 in
      let later : i + 1 + length cs ≡ i + suc (length cs) = omega arith in
      let ih = seal_loop-append size replica link.1 (i + 1) cs ds u q in
      ap
        (λ x. x >>= (λ l.
          seal_loop hasher size replica (i + 1) l.1 (cs ++ ds) >>= (λ v. ok (linked hasher l v))))
        p
      ∙ ap (λ x. x >>= (λ v. ok (linked hasher link v))) ih
      ∙ linked-joined link.0 link.1 u
          (seal_loop hasher size replica (i + 1 + length cs) (last_or link.1 u.s_values) ds)
      ∙ ap (λ k. resumed size replica k s ds (linked hasher link u)) later
      ∙ ap (resumed size replica (i + suc (length cs)) s ds) (ok_inj h2)

  -- Sealing returns for fewer than 2^64 chunks, the first of them shorter than 2^64 bytes. The trace
  -- has `R_i` and `S_i` for every chunk, and that is all a provider needs to open its leaves: for
  -- each chunk there is a path that `merkle_verify` accepts for the hash of the two against the
  -- sealed root.
  pub seal_opens :
      (cs : List Bytes) (replica : Bytes)
      → length cs ≤ 256 ^ 8
      → first_size cs < 256 ^ 8
      → (r : SealResult) × (seal hasher cs replica ≡ ok r)
        × (length r.s_chain ≡ length cs)
        × (length r.r_values ≡ length cs)
        × ((i : ℕ)
            → i < length cs
            → (path : List Bytes) × (merkle_proof hasher (leaves_of hasher r.r_values r.s_chain) i
                ≡ ok path)
              × (merkle_verify hasher
                    (hasher (get_or r.r_values i [] ∷ get_or r.s_chain i [] ∷ []))
                    path
                    i
                    r.sealed_root
                  ≡ true))
  unfolding seal
  seal_opens cs replica h k =
      let (t, p, v) = seal_loop_lem (first_size cs) replica replica 0 cs k (omega arith) in
      let ls : List Bytes = leaves_of hasher t.r_values t.s_values in
      let n : length ls ≡ length cs = length-leaves_of t.r_values t.s_values _ v.values v.links in
      (
        result_of hasher t,
        rw p refl,
        v.links,
        v.values,
        λ i l.
            let (path, q, opened) = merkle_verify-merkle_proof hasher ls i (omega arith) in
            (
              path,
              q,
              ap₂ (λ leaf root. merkle_verify hasher leaf path i root)
                    (sym (
                      get_or-leaves_of t.r_values t.s_values i (omega (arith, v.values))
                        (omega (arith, v.links))))
                    (ap (merkle_root hasher) v.opened)
                  ∙ opened,
            ),
      )
