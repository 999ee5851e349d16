-- ===== src/Staging/Runs.antt =====
-- What `run` (src/dfir_workbench/staging.py) says of the source.
use dfir_evidence_workbench.Base.{
  ◌==◌, ◌≡◌, refl, eq_iff, sym, eq_refl, eqb_refl, Bool, true, false, not, some, List, [], ◌∷◌,
}
use dfir_evidence_workbench.Base.Result.{Result, ok, err, raise_if, raise_if-passed, OnOk, >>=-OnOk}
use dfir_evidence_workbench.Staging.Archives.{StagingError, source_changed}
use dfir_evidence_workbench.Staging.{
  Source, Entry, Snapshot, of_file, of_tree, Site, snapshot, World, stage, digest_of, same_modes,
  modes_kept, all_events, unchanged, concluded, after_stage, run,
}
use dfir_evidence_workbench.Staging.Bounds.{IsStaged, stage-OnOk, stage-IsStaged}

-- The snapshots before and after agree, and the records hold both.
abbrev pub IsVerified : Site → Bool → World → Result StagingError Snapshot × World → Type 0
IsVerified site copy_source w (err e, w') = Unit {0}
IsVerified site copy_source w (ok after, w') =
    (before : Snapshot) × (snapshot site w.source ≡ ok before)
    × (snapshot site w'.source ≡ ok after)
    × (digest_of after ≡ digest_of before)
    × (modes_kept before after ≡ true)
    × (w'.records
        ≡ some (
          record { source = before; copied = copy_source; after = some after },
          all_events site w.source after,
        ))

unchanged-OnOk :
    (site : Site) (before : Snapshot) (source : Source)
    → OnOk
        (λ after.
          (snapshot site source ≡ ok after)
          × (digest_of after ≡ digest_of before)
          × (modes_kept before after ≡ true))
        (unchanged site before source)
unfolding unchanged
unchanged-OnOk site before source = >>=-OnOk _ (snapshot site source) _ λ after h.
    >>=-OnOk _ (raise_if (not (digest_of before == digest_of after)) source_changed) _ λ _ d.
      >>=-OnOk _ (raise_if (not (modes_kept before after)) source_changed) _ λ _ m. (
        h,
        sym (
            (eq_iff (digest_of before) (digest_of after)).0
              (positive (raise_if-passed _ source_changed d))),
        positive (raise_if-passed _ source_changed m),
      )
  where
    positive : {b : Bool} → not b ≡ false → b ≡ true
    positive {b = true} e = refl
    positive {b = false} e = cc

same_modes_refl : (es : List Entry) → same_modes es es ≡ true
unfolding same_modes
same_modes_refl [] = refl
same_modes_refl (e ∷ es) = rw (eq_refl e.path, eqb_refl e.mode, same_modes_refl es) refl

modes_kept_refl : (s : Snapshot) → modes_kept s s ≡ true
modes_kept_refl (of_file i) = refl
modes_kept_refl (of_tree size sha256 entries) = same_modes_refl entries

-- A run that does not raise found the source, as it is after the processor, with the digest that it
-- had before and, for a tree, with the modes of its entries; the records that it leaves hold both
-- snapshots.
pub run-IsVerified :
    (site : Site) (copy_source : Bool) (processor : Source → World → World) (w : World)
    → IsVerified site copy_source w (run site copy_source processor w)
unfolding run after_stage concluded
run-IsVerified site copy_source processor w =
    at (stage site copy_source w) (stage-OnOk site copy_source w)
  where
    conclude :
        (before : Snapshot) (v : World) (m : Result StagingError Snapshot)
        → snapshot site w.source ≡ ok before
        → OnOk
            (λ after.
              (snapshot site v.source ≡ ok after)
              × (digest_of after ≡ digest_of before)
              × (modes_kept before after ≡ true))
            m
        → IsVerified site copy_source w (m, concluded site copy_source w.source before v m)
    conclude before v (ok after) h c = (before, h, c.0, c.1, c.2, refl)
    conclude before v (err e) h c = tt

    at :
        (m : Result StagingError (Source × Snapshot × World))
        → OnOk (IsStaged site w) m
        → IsVerified site copy_source w (after_stage site copy_source processor w m)
    at (err e) h = tt
    at (ok (target, before, w')) h =
        conclude before (processor target w') (unchanged site before (processor target w').source)
          (h.2) (unchanged-OnOk site before (processor target w').source)

-- If a source is staged and the processor leaves it as it was, the run succeeds with the snapshot that
-- was taken first.
pub run-unchanged :
    (site : Site) (copy_source : Bool) (processor : Source → World → World) (w : World)
    (target : Source) (before : Snapshot) (w' : World)
    → stage site copy_source w ≡ ok (target, before, w')
    → (processor target w').source ≡ w.source
    → (run site copy_source processor w).0 ≡ ok before
unfolding run after_stage unchanged
run-unchanged site copy_source processor w target before w' h kept =
    let taken = (stage-IsStaged site copy_source w (target, before, w') h).2 in
    rw (h, kept, taken, eq_refl (digest_of before), modes_kept_refl before) refl
