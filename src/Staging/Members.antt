-- ===== src/Staging/Members.antt =====
-- Which members of an archive pass the checks of src/dfir_workbench/staging.py.
use dfir_evidence_workbench.Base.{
  ℕ, zero, suc, ◌+◌, ◌≤◌, ◌==◌, ◌≡◌, ap, ◌∙◌, String, Bool, true, false, ◌||◌, ◌&&◌, Bool-cases,
  inl, inr, Option, none, some, List, [], ◌∷◌, map, any, ltb, length, arith, if◌then◌else◌,
}
use dfir_evidence_workbench.Base.Strings.{split, has_text}
use dfir_evidence_workbench.Base.Result.{ok, raise_if-ok, >>=-eq-ok}
use dfir_evidence_workbench.Staging.Archives.{
  path_traversal_rejected, symlink_rejected, archive_limit_exceeded, SafetyLimits, Member,
  kept_parts, is_separator, parts_of, is_absolute, safe_member, checked_parts, check_members,
  check_archive, Container, zip, tar, broken, no_archive, of_zip, of_tar, validate_container,
}

-- How deep a path leads below the directory that it is resolved in; `none` if it leaves it.
abbrev pub depth_after : List String → ℕ → Option ℕ
depth_after [] d = some d
depth_after (p ∷ ps) d =
    let stays = depth_after ps d in
    let enters = depth_after ps (suc d) in
    let leaves : Option ℕ = elim d [ zero ↦ none | suc e ↦ depth_after ps e ] in
    if p == "" || p == "." then stays else if p == ".." then leaves else enters

abbrev has_parent : List String → Bool
has_parent ps = any (λ part. part == "..") ps

depth_after-kept :
    (ps : List String) (d : ℕ)
    → has_parent (kept_parts ps) ≡ false
    → depth_after ps d ≡ some (d + length (kept_parts ps))
unfolding kept_parts
depth_after-kept [] d h = ap some (omega arith)
depth_after-kept (p ∷ ps) d h = elim (Bool-cases (p == "" || p == ".")) [
  | inl dot ↦ rw dot (depth_after-kept ps d (rest dot))
  | inr name ↦
      (let parent : (p == "..") ≡ false = ground arith in
        let others : has_parent (kept_parts ps) ≡ false = ground arith in
        rw (name, parent) (depth_after-kept ps (suc d) others ∙ ap some (omega arith)))
]
  where
    rest : (p == "" || p == ".") ≡ true → has_parent (kept_parts ps) ≡ false
    rest dot = ground arith

-- A member ends below the directory that the archive is unpacked in, and is a plain file or directory
-- of a size within the limit.
abbrev pub IsSafeMember : SafetyLimits → Member → Type 0
IsSafeMember limits m =
    (is_absolute m.name ≡ false)
    × (depth_after (split is_separator m.name) 0 ≡ some (length (parts_of m.name)))
    × (1 ≤ length (parts_of m.name))
    × (m.is_special ≡ false)
    × ((m.has_bytes && ltb limits.max_file_bytes m.size) ≡ false)

abbrev pub AreSafe : SafetyLimits → List Member → Type 0
AreSafe limits [] = Unit {0}
AreSafe limits (m ∷ ms) = IsSafeMember limits m × AreSafe limits ms

abbrev pub unpacked_bytes : List Member → ℕ
unpacked_bytes [] = 0
unpacked_bytes (m ∷ ms) = (if m.has_bytes then m.size else 0) + unpacked_bytes ms

checked_parts-ok :
    (name : String) (parts : List String) {p : String}
    → checked_parts name parts ≡ ok p
    → (has_parent parts ≡ false) × (1 ≤ length parts)
checked_parts-ok name [] h = cc
checked_parts-ok name (q ∷ qs) h =
    let passed =
      raise_if-ok (has_text ":" q || has_parent (q ∷ qs)) (path_traversal_rejected name) _ h in
    let parent : has_parent (q ∷ qs) ≡ false = ground (arith, passed.0) in (parent, omega arith)

safe_member-ok :
    (name : String) {p : String}
    → safe_member name ≡ ok p
    → (is_absolute name ≡ false)
      × (has_parent (parts_of name) ≡ false)
      × (1 ≤ length (parts_of name))
unfolding safe_member
safe_member-ok name h =
    let passed =
      raise_if-ok (name == "" || is_absolute name) (path_traversal_rejected name)
        (checked_parts name (parts_of name)) h in
    let relative : is_absolute name ≡ false = ground (arith, passed.0) in
    let parts = checked_parts-ok name (parts_of name) (passed.1) in (relative, parts.0, parts.1)

check_members-AreSafe :
    (limits : SafetyLimits) (total : ℕ) (ms : List Member)
    → total ≤ limits.max_total_bytes
    → check_members limits total ms ≡ ok tt
    → AreSafe limits ms × (total + unpacked_bytes ms ≤ limits.max_total_bytes)
unfolding check_members
check_members-AreSafe limits total [] within h = (tt, omega arith)
check_members-AreSafe limits total (m ∷ ms) within h =
    let named = >>=-eq-ok (safe_member m.name) _ h in
    let plain = raise_if-ok m.is_special (symlink_rejected (named.0)) _ (named.2) in
    let small =
      raise_if-ok
        (m.has_bytes
          && (ltb limits.max_file_bytes m.size || ltb limits.max_total_bytes (total + m.size)))
        (archive_limit_exceeded (named.0))
        (check_members limits (if m.has_bytes then total + m.size else total) ms) (plain.1) in
    let safe = safe_member-ok m.name (named.1) in
    let now : (if m.has_bytes then total + m.size else total) ≤ limits.max_total_bytes =
      ground (arith, small.0) in
    let rest =
      check_members-AreSafe limits (if m.has_bytes then total + m.size else total) ms now
        (small.1) in
    let each : (m.has_bytes && ltb limits.max_file_bytes m.size) ≡ false =
      ground (arith, small.0) in
    let sum : total + unpacked_bytes (m ∷ ms) ≤ limits.max_total_bytes = ground (arith, rest.1) in
    (
      (
        (
          safe.0,
          depth_after-kept (split is_separator m.name) 0 (safe.1) ∙ ap some (omega arith),
          safe.2,
          plain.0,
          each,
        ),
        rest.0,
      ),
      sum,
    )

-- What a container unpacks to.
abbrev pub members_of : Container → List Member
members_of (zip ms is_sound) = map of_zip ms
members_of (tar ms) = map of_tar ms
members_of broken = []
members_of (no_archive name) = []

-- An archive within the limits, of which all members are safe.
abbrev pub IsBoundedArchive : SafetyLimits → List Member → Type 0
IsBoundedArchive limits ms =
    (length ms ≤ limits.max_archive_members)
    × (unpacked_bytes ms ≤ limits.max_total_bytes)
    × AreSafe limits ms

check_archive-IsBounded :
    (limits : SafetyLimits) (ms : List Member)
    → check_archive limits ms ≡ ok tt
    → IsBoundedArchive limits ms
unfolding check_archive
check_archive-IsBounded limits ms h =
    let few =
      raise_if-ok (ltb limits.max_archive_members (length ms)) (archive_limit_exceeded ".")
        (check_members limits 0 ms) h in
    let safe = check_members-AreSafe limits 0 ms (omega arith) (few.1) in
    let count : length ms ≤ limits.max_archive_members = ground (arith, few.0) in
    let bytes : unpacked_bytes ms ≤ limits.max_total_bytes = ground (arith, safe.1) in
    (count, bytes, safe.0)

pub validate_container-IsBounded :
    (limits : SafetyLimits) (c : Container)
    → validate_container limits c ≡ ok tt
    → IsBoundedArchive limits (members_of c)
unfolding validate_container
validate_container-IsBounded limits (zip ms is_sound) h =
    let passed = >>=-eq-ok (check_archive limits (map of_zip ms)) _ h in
    check_archive-IsBounded limits (map of_zip ms) (passed.1)
validate_container-IsBounded limits (tar ms) h = check_archive-IsBounded limits (map of_tar ms) h
validate_container-IsBounded limits broken h = (omega arith, omega arith, tt)
validate_container-IsBounded limits (no_archive name) h = (omega arith, omega arith, tt)
