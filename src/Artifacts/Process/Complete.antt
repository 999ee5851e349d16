-- ===== src/Artifacts/Process/Complete.antt =====
-- When `process_artifact` of src/dfir_workbench/artifact_timeline.py calls an archive complete.
use dfir_evidence_workbench.Base.{
  ℕ, ◌+◌, ◌≡◌, refl, String, Bool, true, false, List, [], ◌∷◌, ◌++◌, any, All, if◌then◌else◌,
}
use dfir_evidence_workbench.Base.Result.{
  Result, ok, err, ◌>>=◌, OnOk, >>=-OnOk, OnOk-if, OnOk-ok, OnOk-map,
}
use dfir_evidence_workbench.Artifacts.Records.{Crash, Libs, Origin}
use dfir_evidence_workbench.Artifacts.Rows.{Readers, Problem, Parsed, recorded, rows_of, parse_text}
use dfir_evidence_workbench.Artifacts.Process.{
  Content, Read, bytes, bad, raises, Member, Source, insert, precedes, sorted, is_rejected,
  is_too_large, with_problem, member_origin, parsed_member, member_step, parse_members,
  parse_archive, invalid_input, partial, complete, is_fatal, Outcome, outcome, unreadable,
  parse_tables, process_artifact, is_binary, is_database,
}

pub data IsText (d : Result String String) : Type 0 where
  is_text : (text : String) → d ≡ ok text → IsText d

-- A file of an archive that was read as text, with a name that does not lead out of the archive.
pub data IsRead (m : Member) : Type 0 where
  is_read :
      (c : Content)
      → m.read ≡ bytes c
      → IsText c.decoded
      → is_rejected m.filename ≡ false
      → IsRead m

abbrev pub IsCovered : Member → Type 0
IsCovered m = m.is_dir ≡ false → IsRead m

append_empty {ℓ} : {A : Type ℓ} (k l : List A) → k ++ l ≡ [] → (k ≡ []) × (l ≡ [])
append_empty [] l e = (refl, e)
append_empty (x ∷ k) l e = cc

OnOk-always : {E A : Type 0} (P : A → Type 0) → ((x : A) → P x) → (m : Result E A) → OnOk P m
OnOk-always P f (ok x) = f x
OnOk-always P f (err e) = tt

parse_text-IsText :
    (libs : Libs) (readers : Readers) (o : Origin) (suffix : String) (d : Result String String)
    → OnOk (λ p. p.1 ≡ [] → IsText d) (parse_text libs readers o suffix d)
unfolding parse_text
parse_text-IsText libs readers o suffix (err message) = λ z. cc
parse_text-IsText libs readers o suffix (ok text) =
    OnOk-always _ (λ p z. is_text text refl) (recorded libs o (rows_of readers suffix o.path text))

module _ (libs : Libs) (readers : Readers) (path timezone : String) where
  abbrev IsWhole : List Member → Parsed → Type 0
  IsWhole ms p = p.1 ≡ [] → All IsCovered ms

  with_problem-IsWhole :
      (ms : List Member) (p : Problem) (x : Result Crash Parsed)
      → OnOk (IsWhole ms) (with_problem p x)
  with_problem-IsWhole ms p (err c) = tt
  with_problem-IsWhole ms p (ok (rs, ps)) = λ e. cc

  parsed_member-IsWhole :
      (m : Member) (ms : List Member) (total : ℕ) (others : ℕ → Result Crash Parsed)
      → is_rejected m.filename ≡ false
      → ((n : ℕ) → OnOk (IsWhole ms) (others n))
      → (r : Read) → m.read ≡ r
      → OnOk (IsWhole (m ∷ ms)) (parsed_member libs readers path timezone m total others r)
  parsed_member-IsWhole m ms total others j h (bytes c) e =
      let o = member_origin libs readers path timezone m c in
      >>=-OnOk _ (parse_text libs readers o m.suffix c.decoded) _ λ (rs, ps) p.
        >>=-OnOk _ (others (total + c.size)) _ λ (qs, es) q z.
          let (none_here, none_later) = append_empty ps es z in
          (
            (λ _.
                is_read c e
                  (OnOk-ok (λ (p : Parsed). p.1 ≡ [] → IsText c.decoded) _
                    (parse_text-IsText libs readers o m.suffix c.decoded) p none_here)
                  j),
            OnOk-ok (IsWhole ms) _ (h (total + c.size)) q none_later,
          )
  parsed_member-IsWhole m ms total others j h (bad message) e = λ z. cc
  parsed_member-IsWhole m ms total others j h raises e = tt

  member_step-IsWhole :
      (m : Member) (ms : List Member) (total : ℕ) (others : ℕ → Result Crash Parsed)
      → ((n : ℕ) → OnOk (IsWhole ms) (others n))
      → OnOk (IsWhole (m ∷ ms)) (member_step libs readers path timezone m total others)
  member_step-IsWhole m ms total others h =
      OnOk-if _ m.is_dir _ _
        (λ d. OnOk-map (IsWhole ms) _ (λ p w z. (λ f. cc, w z)) (others total) (h total))
        λ d.
          OnOk-if _ (is_rejected m.filename) _ _
            (λ _. with_problem-IsWhole (m ∷ ms) _ (others total))
            λ j.
              OnOk-if _ (is_too_large total m) _ _
                (λ _. with_problem-IsWhole (m ∷ ms) _ (others total))
                λ l. parsed_member-IsWhole m ms total others j h m.read refl

  parse_members-IsWhole :
      (ms : List Member) (total : ℕ)
      → OnOk (IsWhole ms) (parse_members libs readers path timezone ms total)
  unfolding parse_members
  parse_members-IsWhole [] total = λ z. tt
  parse_members-IsWhole (m ∷ ms) total =
      member_step-IsWhole m ms total (parse_members libs readers path timezone ms)
        (parse_members-IsWhole ms)

All-insert :
    (P : Member → Type 0) (m : Member) (ns : List Member) → All P (insert m ns) → P m × All P ns
All-insert P m [] h = h
All-insert P m (n ∷ ns) h = at (precedes n m) (All-insert P m ns) h
  where
    at :
        (b : Bool)
        → (All P (insert m ns) → P m × All P ns)
        → All P (if b then n ∷ insert m ns else m ∷ n ∷ ns)
        → P m × (P n × All P ns)
    at true f h = let (first, rest) = f (h.1) in (first, (h.0, rest))
    at false f h = h

All-sorted : (P : Member → Type 0) (ms : List Member) → All P (sorted ms) → All P ms
unfolding sorted
All-sorted P [] h = tt
All-sorted P (m ∷ ms) h =
    let (first, rest) = All-insert P m (sorted ms) h in (first, All-sorted P ms rest)

-- A result that has errors or unresolved parts is not complete.
outcome-complete : (p : Parsed) (us : List String) → (outcome p us).status ≡ complete → p.1 ≡ []
outcome-complete (rs, []) us e = refl
outcome-complete (rs, p ∷ ps) us e = at (any is_fatal (p ∷ ps)) e
  where
    at : (b : Bool) → (if b then invalid_input else partial) ≡ complete → p ∷ ps ≡ []
    at true e = cc
    at false e = cc

-- A source that is plain, and of which nothing was left unread: the reading of a database did not end
-- early, or each file of an archive was read as text, or the source itself was.
pub data IsWhollyRead (f : Source) : Type 0 where
  whole_database :
      f.is_plain_file ≡ true → is_database f.suffix ≡ true → f.table_error ≡ [] → IsWhollyRead f
  whole_archive :
      f.is_plain_file ≡ true
      → f.is_zipfile ≡ true
      → (ms : List Member) → f.members ≡ ok ms
      → All IsCovered ms
      → IsWhollyRead f
  whole_text : f.is_plain_file ≡ true → IsText f.content.decoded → IsWhollyRead f

unreadable-empty : (path : String) (ms : List String) → unreadable path ms ≡ [] → ms ≡ []
unreadable-empty path [] e = refl
unreadable-empty path (m ∷ ms) e = cc

module _ (libs : Libs) (readers : Readers) (timezone : String) (f : Source) where
  abbrev IsSound : Outcome → Type 0
  IsSound out = out.status ≡ complete → IsWhollyRead f

  archive-IsSound :
      f.is_plain_file ≡ true
      → f.is_zipfile ≡ true
      → (read : Result String (List Member)) → f.members ≡ read
      → OnOk IsSound
          (parse_archive libs readers f.path timezone read >>= λ parsed. ok (outcome parsed []))
  archive-IsSound h z (err message) e = λ c. cc
  archive-IsSound h z (ok ms) e =
      >>=-OnOk _ (parse_members libs readers f.path timezone (sorted ms) 0) _ λ p g c.
        whole_archive h z ms e (
          All-sorted IsCovered ms (
            OnOk-ok (IsWhole libs readers f.path timezone (sorted ms)) _
              (parse_members-IsWhole libs readers f.path timezone (sorted ms) 0) g
              (outcome-complete p [] c)))

  process_artifact-IsSound : OnOk IsSound (process_artifact libs readers timezone f)
  unfolding process_artifact
  process_artifact-IsSound =
      OnOk-if _ f.is_plain_file _ _
        (λ h.
          OnOk-if _ (is_binary f.suffix) _ _ (λ _ c. cc)
            λ _.
              OnOk-if _ (is_database f.suffix) _ _
                (λ d.
                  >>=-OnOk _ (parse_tables libs readers f.path timezone f.content.digest f.tables) _
                    λ rs g c. whole_database h d (
                      unreadable-empty f.path f.table_error
                        (outcome-complete (rs, unreadable f.path f.table_error) [] c)))
                λ _.
                  OnOk-if _ f.is_zipfile _ _ (λ z. archive-IsSound h z f.members refl)
                    λ _.
                      let o : Origin = record {
                        path = f.path;
                        digest = f.content.digest;
                        timezone = timezone;
                      } in
                      >>=-OnOk _ (parse_text libs readers o f.suffix f.content.decoded) _ λ p g c.
                        whole_text h (
                          OnOk-ok (λ (q : Parsed). q.1 ≡ [] → IsText f.content.decoded) _
                            (parse_text-IsText libs readers o f.suffix f.content.decoded) g
                            (outcome-complete p [] c)))
        λ _ c. cc

  -- A source that `process_artifact` calls complete is a plain file and was read to its end: for a database
  -- no error ended the reading, for an archive each member that is no directory was read as UTF-8 text and
  -- has a name that does not lead out of the archive, and any other source is UTF-8 text.
  pub process_artifact-complete :
      (out : Outcome)
      → process_artifact libs readers timezone f ≡ ok out
      → out.status ≡ complete
      → IsWhollyRead f
  process_artifact-complete out e = OnOk-ok IsSound _ process_artifact-IsSound e
