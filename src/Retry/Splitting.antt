-- ===== src/Retry/Splitting.antt =====
-- `RetrySmallerChunk`: what the recovered value is, and when there is one.
use graphed.Prelude.{
  Bool, String, map, inl, inr, ℕ, zero, suc, ◌<◌, ◌≤◌, ◌≡◌, refl, ap, ap₂, ◌∙◌, List, [], ◌∷◌,
  arith, All, length, leb, Bool-cases, ◌||◌,
}
use graphed.Outcome.{Exn, returns, Exec, pure, lift, except, ◌>>=◌}
use graphed.Outcome.Inversion.{recover-eq-returns, continue-eq-returns}
use graphed.Partition.{Partition, ranged, n_entries}
use graphed.Partition.Tiles.{Tiles}
use graphed.Retry.{Process, Combine, reduce_from, reduce, each_sub, process_split, split}
use graphed.Retry.Pieces.{IsPart, split-Cuts, split_several}

-- The test by which `_process_split` re-raises.
abbrev pub gives_up : ℕ → ℕ → Partition → Bool
gives_up splits min_size p = leb (length (split p splits)) 1 || leb (n_entries p) min_size

-- `p` is an entry range of the file.
abbrev pub OfFile : String → String → Partition → Type 0
OfFile uri tree p = p ≡ ranged uri tree p.entry_start p.entry_stop

-- What `value` says of the entries of `p`.
abbrev pub value_of {ℓ} : {R : Type ℓ} → (ℕ → ℕ → R) → Partition → R
value_of value p = value p.entry_start p.entry_stop

module _ {ℓ} {S R : Type ℓ} (process : Process S R) (combine : Combine R) (uri tree : String)
    (value : ℕ → ℕ → R) where
  -- `value lo hi` is the result over the entries `lo .. hi - 1`: `combine` joins adjacent results,
  -- and `process` computes it whenever it returns.
  pub record IsAdditive : Type ℓ where
    pub joins :
        (lo mid hi : ℕ)
        → lo ≤ mid
        → mid ≤ hi
        → combine (value lo mid) (value mid hi) ≡ returns (value lo hi)
    pub computes :
        (lo hi : ℕ) (s : S) (r : R)
        → (process (ranged uri tree lo hi) s).0 ≡ returns r
        → r ≡ value lo hi

  module _ (additive : IsAdditive) where
    reduce_from-values :
        (first lo hi : ℕ) (ps : List Partition)
        → first ≤ lo
        → Tiles lo hi ps
        → reduce_from combine (value first lo) (map (value_of value) ps) ≡ returns (value first hi)
    unfolding reduce_from
    reduce_from-values first lo hi [] up h = rw h refl
    reduce_from-values first lo hi (p ∷ ps) up h =
        rw (h.0, additive.joins first lo p.entry_stop up h.1)
          (reduce_from-values first p.entry_stop hi ps (omega arith) h.2)

    pub reduce-values :
        (lo hi : ℕ) (ps : List Partition)
        → 1 < length ps
        → Tiles lo hi ps
        → reduce combine (map (value_of value) ps) ≡ returns (value lo hi)
    unfolding reduce
    reduce-values lo hi [] some_piece h = elim some_piece [ ]
    reduce-values lo hi (p ∷ ps) some_piece h =
        rw h.0 (reduce_from-values lo p.entry_stop hi ps h.1 h.2)

    -- A handler of failed partitions that only ever returns right values.
    abbrev pub Answers : (Partition → Exn → Exec S R) → Type ℓ
    Answers again =
        (q : Partition) (e : Exn) (s : S) (r : R)
        → OfFile uri tree q
        → (again q e s).0 ≡ returns r
        → r ≡ value_of value q

    sub-value :
        (again : Partition → Exn → Exec S R) (q : Partition) (s : S) (r : R)
        → Answers again
        → OfFile uri tree q
        → (except (process q) (again q) s).0 ≡ returns r
        → r ≡ value_of value q
    sub-value again q s r good of_file e = elim (recover-eq-returns (process q s) (again q) e) [
      | inl done ↦ additive.computes q.entry_start q.entry_stop s r (rw of_file at done)
      | inr (exc, done) ↦ good q exc _ r of_file done
    ]

    pub each_sub-values :
        (again : Partition → Exn → Exec S R) (ps : List Partition) (s : S) (rs : List R)
        → Answers again
        → All (OfFile uri tree) ps
        → (each_sub process again ps s).0 ≡ returns rs
        → rs ≡ map (value_of value) ps
    unfolding each_sub
    each_sub-values again [] s rs good files e = cc
    each_sub-values again (q ∷ qs) s rs good files e =
        let first = except (process q) (again q) s in
        let (r, got, e') =
          continue-eq-returns first (λ r. each_sub process again qs >>= λ rest. pure (r ∷ rest))
            e in
        let (rest, got', e'') =
          continue-eq-returns (each_sub process again qs first.1) (λ rest. pure (r ∷ rest)) e' in
        let head_right = sub-value again q s r good files.0 got in
        let tail_right = each_sub-values again qs first.1 rest good files.1 got' in
        cc (head_right, tail_right, e'')

    pub parts-OfFile :
        (p : Partition) (ps : List Partition)
        → OfFile uri tree p
        → All (IsPart p) ps
        → All (OfFile uri tree) ps
    parts-OfFile p [] of_file h = tt
    parts-OfFile p (q ∷ ps) of_file h = (
      h.0.is_range
          ∙ ap₂ (λ u t. ranged u t q.entry_start q.entry_stop)
              (ap (λ (x : Partition). x.uri) of_file) (ap (λ (x : Partition). x.tree) of_file),
      parts-OfFile p ps of_file h.1,
    )

    pub process_split-value :
        (splits min_size fuel : ℕ) (p : Partition) (error : Exn) (s : S) (r : R)
        → OfFile uri tree p
        → (process_split splits min_size process combine fuel p error s).0 ≡ returns r
        → r ≡ value_of value p
    unfolding process_split
    process_split-value splits min_size zero p error s r of_file e = cc
    process_split-value splits min_size (suc fuel) p error s r of_file e =
        elim (Bool-cases (gives_up splits min_size p)) [
          | inl stop ↦ cc (rw stop at e)
          | inr go_on ↦
              let again = process_split splits min_size process combine fuel in
              let subs = split p splits in
              let e' : ((each_sub process again subs >>= λ partials. lift (reduce combine partials))
                    s).0
                  ≡ returns r =
                rw go_on at e in
              let (rs, got, e'') =
                continue-eq-returns (each_sub process again subs s)
                  (λ partials. lift (reduce combine partials)) e' in
              let several : 1 < length subs = ground arith in
              let cuts = (split-Cuts p splits (split_several p splits several)).0 in
              let answers : Answers again = λ q error' s' r' of_file' got'.
                process_split-value splits min_size fuel q error' s' r' of_file' got' in
              let values =
                each_sub-values again subs s rs answers (parts-OfFile p subs of_file cuts.1) got in
              cc (e'', values, reduce-values p.entry_start p.entry_stop subs several cuts.0)
        ]
