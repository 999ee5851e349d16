-- ===== src/Artifacts/Process/Members.antt =====
-- From which members of an archive src/dfir_workbench/artifact_timeline.py takes records.
use dfir_evidence_workbench.Base.{
  ℕ, ◌+◌, ◌≤◌, ◌≡◌, refl, String, Bool, true, false, List, [], ◌∷◌, arith, if◌then◌else◌,
}
use dfir_evidence_workbench.Base.Strings.{◌<>◌}
use dfir_evidence_workbench.Base.Result.{
  Result, ok, err, OnOk, >>=-OnOk, OnOk-if, OnOk-ok, OnOk-map,
}
use dfir_evidence_workbench.Artifacts.Records.{Crash, Libs}
use dfir_evidence_workbench.Artifacts.Rows.{
  Readers, Problem, path_traversal_rejected, archive_member_limit_exceeded, Parsed, parse_text,
}
use dfir_evidence_workbench.Artifacts.Process.{
  Content, Read, bytes, bad, raises, Member, insert, precedes, sorted, as_posix, is_rejected,
  max_member, is_too_large, with_problem, member_origin, parsed_member, member_step, parse_members,
}
use dfir_evidence_workbench.Artifacts.Rows.Located.{
  AreParts, no_part, part, AreParts-map, IsParsedAt, parse_text-IsParsedAt,
}

pub data Among {A : Type 0} (x : A) : List A → Type 0 where
  here : {xs : List A} → Among x (x ∷ xs)
  there : {y : A} {xs : List A} → Among x xs → Among x (y ∷ xs)

-- The path and the digest of a member that was read: its name does not lead out of the archive, and it
-- is within the limit of a member.
pub data IsOfMember (path : String) (ms : List Member) (at_path digest : String) : Type 0 where
  of_member :
      (m : Member) (c : Content)
      → Among m ms
      → m.read ≡ bytes c
      → m.is_dir ≡ false
      → is_rejected m.filename ≡ false
      → m.file_size ≤ max_member
      → at_path ≡ path <> ("!/" <> as_posix m.filename)
      → digest ≡ c.digest
      → IsOfMember path ms at_path digest

pub IsOfMember-mono :
    (path : String) (ms ns : List Member)
    → ((m : Member) → Among m ms → Among m ns)
    → (at_path digest : String) → IsOfMember path ms at_path digest
    → IsOfMember path ns at_path digest
IsOfMember-mono path ms ns f at_path digest (of_member m c a e d j l p q) =
    of_member m c (f m a) e d j l p q

module _ (libs : Libs) (readers : Readers) (path timezone : String) where
  abbrev pub AreOf : List Member → Parsed → Type 0
  AreOf ms p = AreParts (IsOfMember path ms) (p.0)

  later-OnOk :
      (m : Member) (ms : List Member) (x : Result Crash Parsed)
      → OnOk (AreOf ms) x
      → OnOk (AreOf (m ∷ ms)) x
  later-OnOk m ms x =
      OnOk-map (AreOf ms) (AreOf (m ∷ ms))
        (λ p. AreParts-map _ _ (IsOfMember-mono path ms (m ∷ ms) (λ n a. there a)) (p.0)) x

  with_problem-OnOk :
      (ms : List Member) (p : Problem) (x : Result Crash Parsed)
      → OnOk (AreOf ms) x
      → OnOk (AreOf ms) (with_problem p x)
  with_problem-OnOk ms p (err c) h = tt
  with_problem-OnOk ms p (ok (rs, ps)) h = h

  parsed_member-OnOk :
      (m : Member) (ms : List Member) (total : ℕ) (others : ℕ → Result Crash Parsed)
      → m.is_dir ≡ false
      → is_rejected m.filename ≡ false
      → m.file_size ≤ max_member
      → ((n : ℕ) → OnOk (AreOf ms) (others n))
      → (r : Read) → m.read ≡ r
      → OnOk (AreOf (m ∷ ms)) (parsed_member libs readers path timezone m total others r)
  parsed_member-OnOk m ms total others d j l h (bytes c) e =
      let o = member_origin libs readers path timezone m c in
      >>=-OnOk _ (parse_text libs readers o m.suffix c.decoded) _ λ (rs, ps) p.
        >>=-OnOk _ (others (total + c.size)) _ λ (qs, es) q.
          part o.path o.digest rs qs (of_member m c here e d j l refl refl)
            (OnOk-ok (IsParsedAt o.path o.digest) _
              (parse_text-IsParsedAt libs readers o m.suffix c.decoded) p)
            (OnOk-ok (AreOf (m ∷ ms)) _
              (later-OnOk m ms (others (total + c.size)) (h (total + c.size))) q)
  parsed_member-OnOk m ms total others d j l h (bad message) e = no_part
  parsed_member-OnOk m ms total others d j l h raises e = tt

  member_step-OnOk :
      (m : Member) (ms : List Member) (total : ℕ) (others : ℕ → Result Crash Parsed)
      → ((n : ℕ) → OnOk (AreOf ms) (others n))
      → OnOk (AreOf (m ∷ ms)) (member_step libs readers path timezone m total others)
  member_step-OnOk m ms total others h =
      let rest = later-OnOk m ms (others total) (h total) in
      OnOk-if _ m.is_dir _ _ (λ _. rest)
        λ d.
          OnOk-if _ (is_rejected m.filename) _ _
            (λ _.
              with_problem-OnOk (m ∷ ms) (path_traversal_rejected (as_posix m.filename))
                (others total) rest)
            λ j.
              OnOk-if _ (is_too_large total m) _ _
                (λ _.
                  with_problem-OnOk (m ∷ ms) (archive_member_limit_exceeded (as_posix m.filename))
                    (others total) rest)
                λ l. parsed_member-OnOk m ms total others d j (small l) h m.read refl
    where
      small : is_too_large total m ≡ false → m.file_size ≤ max_member
      small l = ground arith

  pub parse_members-OnOk :
      (ms : List Member) (total : ℕ)
      → OnOk (AreOf ms) (parse_members libs readers path timezone ms total)
  unfolding parse_members
  parse_members-OnOk [] total = no_part
  parse_members-OnOk (m ∷ ms) total =
      member_step-OnOk m ms total (parse_members libs readers path timezone ms)
        (parse_members-OnOk ms)

Among-weaken : (m n k : Member) (ns : List Member) → Among m (n ∷ ns) → Among m (n ∷ k ∷ ns)
Among-weaken m n k ns here = here
Among-weaken m n k ns (there a) = there (there a)

Among-behind :
    (m n k : Member) (ks ns : List Member)
    → (Among m ks → Among m (n ∷ ns))
    → Among m (k ∷ ks)
    → Among m (n ∷ k ∷ ns)
Among-behind m n k ks ns f here = there here
Among-behind m n k ks ns f (there a) = Among-weaken m n k ns (f a)

Among-insert : (m n : Member) (ns : List Member) → Among m (insert n ns) → Among m (n ∷ ns)
Among-insert m n [] a = a
Among-insert m n (k ∷ ns) a = at (precedes k n) (Among-insert m n ns) a
  where
    at :
        (b : Bool)
        → (Among m (insert n ns) → Among m (n ∷ ns))
        → Among m (if b then k ∷ insert n ns else n ∷ k ∷ ns)
        → Among m (n ∷ k ∷ ns)
    at true f a = Among-behind m n k (insert n ns) ns f a
    at false f a = a

Among-cons :
    (m n : Member) (ms ns : List Member)
    → (Among m ms → Among m ns)
    → Among m (n ∷ ms)
    → Among m (n ∷ ns)
Among-cons m n ms ns f here = here
Among-cons m n ms ns f (there a) = there (f a)

pub Among-sorted : (ms : List Member) (m : Member) → Among m (sorted ms) → Among m ms
unfolding sorted
Among-sorted [] m a = a
Among-sorted (n ∷ ns) m a =
    Among-cons m n (sorted ns) ns (Among-sorted ns m) (Among-insert m n (sorted ns) a)
