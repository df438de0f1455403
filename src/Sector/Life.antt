-- ===== src/Sector/Life.antt =====
-- The life of a sector: chunks are lost and the file is deleted, in any order.
use he_thong_chung_minh_luu.Prelude.{
  Bool-cases, List, ap, arith, chunk_missing, err, err-ne-ok, file_not_found, if◌then◌else◌, inl,
  inr, lt→ltb, none, ok, ok_inj, refl, subst, sym, ℕ, ℕ_eq, ◌<◌, ◌∙◌, ◌≡◌, ◌⊎◌,
}
use he_thong_chung_minh_luu.Bytes.{zeros}
use he_thong_chung_minh_luu.Sector.{Sector, chunk, delete, lose_chunks}
use he_thong_chung_minh_luu.Sector.Reads.{IsWhole}
use he_thong_chung_minh_luu.Sector.Losses.{AllBelow, lose_chunks_lem}
use he_thong_chung_minh_luu.Dict.{member}

-- One call that changes the sector.
pub data Step : Sector → Sector → Type 0 where
  punched :
      {s later : Sector} (is : List ℕ) (n : ℕ)
      → AllBelow s.n_chunks is
      → lose_chunks is s ≡ ok (n, later)
      → Step s later
  deleted : (s : Sector) → Step s (delete s)

pub data Life (s : Sector) : Sector → Type 0 where
  made : Life s s
  next : {t u : Sector} → Life s t → Step t u → Life s u

-- What reading a chunk of a sector can give in its later life.
abbrev pub IsLeft : Sector → Sector → ℕ → Type 0
IsLeft s later j =
    (chunk later j ≡ chunk s j)
    ⊎ ((chunk later j ≡ ok (zeros s.chunk_size)) ⊎ (chunk later j ≡ err chunk_missing))

pub record IsLater (s later : Sector) : Type 0 where
  pub kept : IsWhole later ⊎ (later.file ≡ none)
  pub many : later.n_chunks ≡ s.n_chunks
  pub width : later.chunk_size ≡ s.chunk_size
  pub left : (j : ℕ) → j < s.n_chunks → IsLeft s later j

missing : (s : Sector) (j : ℕ) → s.file ≡ none → j < s.n_chunks → chunk s j ≡ err chunk_missing
unfolding chunk
missing s j gone h = rw (lt→ltb j s.n_chunks h, gone) refl

lose_chunks_gone :
    (s : Sector) (is : List ℕ) → s.file ≡ none → lose_chunks is s ≡ err file_not_found
unfolding lose_chunks
lose_chunks_gone s is gone = rw (gone, lose_chunks) refl

punched-IsLater :
    (s t u : Sector) (is : List ℕ) (n : ℕ)
    → AllBelow t.n_chunks is
    → lose_chunks is t ≡ ok (n, u)
    → IsLater s t
    → IsLater s u
punched-IsLater s t u is n a e r = elim r.kept [
  | inr gone ↦ absurd (err-ne-ok (sym (lose_chunks_gone t is gone) ∙ e))
  | inl whole ↦
      let (v, p, w, m, c, read) = lose_chunks_lem t is whole a in
      let same : v ≡ u = ap (λ x. x.1) (ok_inj (sym p ∙ e)) in
      subst (IsLater s) same (record {
        kept = inl w;
        many = m ∙ r.many;
        width = c ∙ r.width;
        left = λ j h.
            let k : j < t.n_chunks = omega (arith, r.many) in
            elim (Bool-cases (member j is)) [
              | inl lost ↦ inr (
                  inl (
                    read j k
                    ∙ ap (λ m. if m then ok (zeros t.chunk_size) else chunk t j) lost
                    ∙ ap (λ x. ok (zeros x)) r.width))
              | inr still ↦
                  let q : chunk v j ≡ chunk t j =
                    read j k ∙ ap (λ m. if m then ok (zeros t.chunk_size) else chunk t j) still in
                  subst
                    (λ x.
                      (x ≡ chunk s j) ⊎ ((x ≡ ok (zeros s.chunk_size)) ⊎ (x ≡ err chunk_missing)))
                    (sym q) (r.left j h)
            ];
      })
]

deleted-IsLater : (s t : Sector) → IsLater s t → IsLater s (delete t)
unfolding delete
deleted-IsLater s t r = record {
  kept = inr refl;
  many = r.many;
  width = r.width;
  left = λ j h. inr (inr (missing (delete t) j refl (omega (arith, r.many))));
}

-- A sector whose file is whole at first goes through any sequence of deletions and of losses of chunks
-- whose indices are in range. Then its file is whole or gone, its chunks are as many and as wide
-- as before, and reading one of its chunks gives the
-- chunk as it was at first, or zeros, or raises ChunkMissing.
pub Life-IsLater : (s later : Sector) → IsWhole s → Life s later → IsLater s later
Life-IsLater s later w made = record {
  kept = inl w;
  many = refl;
  width = refl;
  left = λ j h. inl refl;
}
Life-IsLater s later w (next {t} l (punched is n a e)) =
    punched-IsLater s t later is n a e (Life-IsLater s t w l)
Life-IsLater s later w (next l (deleted t)) = deleted-IsLater s t (Life-IsLater s t w l)
