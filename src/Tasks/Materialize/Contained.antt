-- ===== src/Tasks/Materialize/Contained.antt =====
-- A part of an artifact is saved as a new file of the directory, with the expected content, and foreign
-- servers get no credentials.
use mathlib.Core.Bool.{true≢false}
use a2ad.Common.{
  ℕ, ◌≡◌, refl, sym, ap, ◌∙◌, String, Bool, true, false, ◌&&◌, not, Option, none, some, ◌==◌,
  str_eq_iff, string_eq, text_eq, text_iff, if◌then◌else◌, Text, bytes, is_empty, Bool-cases, inl,
  inr, arith, ◌≢◌, nat_iff, has_byte, [], ◌∷◌, ◌++◌,
}
use mathlib.Core.Path.{subst}
use a2ad.Credentials.{AuthSpec}
use a2ad.Base64.{decode_base64}
use a2ad.Tasks.{Part, Manager}
use a2ad.Tasks.Materialize.{
  Checked, good, fault, >>=-eq-good, good-inj, Disk, Services, Saved, origin, expected_digest,
  is_invalid_name, safe_filename, download_auth, downloaded, fetched, decoded, content_of,
  check_digest, selected, directory_of, is_none, refuse_if, file_name, materialize, disk_after,
}

-- A name of a file in a directory, and no path out of it: it is not empty, not `.` or `..`, and has no
-- slash and no byte 0.
pub record IsPlain (name : Text) : Type 0 where
  pub not_empty : name ≢ []
  pub not_here : name ≢ bytes "."
  pub not_parent : name ≢ bytes ".."
  pub no_slash : (before after : Text) → name ≢ before ++ b'/' ∷ after
  pub no_nul : (before after : Text) → name ≢ before ++ 0 ∷ after

-- The file is a new one, in the directory itself; afterwards it has the content, and the digest that
-- is reported is that of what is on the disk.
pub record IsContained (services : Services) (disk : Disk) (s : Saved) : Type 0 where
  pub plain : IsPlain s.name
  pub fresh : disk.file s.directory s.name ≡ none
  pub written : (disk_after services disk (good s)).file s.directory s.name ≡ some s.content
  pub digest : s.sha256 ≡ services.digest s.content

has_byte-middle : (c : ℕ) (before after : Text) → has_byte c (before ++ c ∷ after) ≡ true
has_byte-middle c [] after = ground (arith, nat_iff c c)
has_byte-middle c (d ∷ before) after = ground (arith, has_byte-middle c before after)

lacks-middle :
    (c : ℕ) (name before after : Text) → has_byte c name ≡ false → name ≢ before ++ c ∷ after
lacks-middle c name before after h e =
    true≢false (sym (has_byte-middle c before after) ∙ ap (has_byte c) (sym e) ∙ h)

is_invalid_name-IsPlain : (name : Text) → is_invalid_name name ≡ false → IsPlain name
unfolding is_invalid_name
is_invalid_name-IsPlain name h = record {
  not_empty = λ e. true≢false (ap is_empty (sym e) ∙ ground (arith, h));
  not_here = λ e. ground (arith, h, text_iff name (bytes "."), e);
  not_parent = λ e. ground (arith, h, text_iff name (bytes ".."), e);
  no_slash = λ before after. lacks-middle b'/' name before after (ground (arith, h));
  no_nul = λ before after. lacks-middle 0 name before after (ground (arith, h));
}

-- A file that has been written is read back.
written-content :
    (services : Services) (disk : Disk) (s : Saved)
    → (disk_after services disk (good s)).file s.directory s.name ≡ some s.content
unfolding disk_after
written-content services disk s =
    ground (arith, text_iff s.directory s.directory, text_iff s.name s.name)

fault-ne-good : {A : Type 0} {e : Text} {a : A} → fault e ≡ good a → ⊥
fault-ne-good h = cc

some-ne-none : {A : Type 0} {a : A} → some a ≡ none → ⊥
some-ne-none h = cc

module _ (services : Services) (disk : Disk) where
  refuse-false :
      (b : Bool) (message : String) {u : Unit {0}} → refuse_if b message ≡ good u → b ≡ false
  refuse-false false message h = refl
  refuse-false true message h = cc

  is_none-eq : {A : Type 0} (o : Option A) → is_none o ≡ true → o ≡ none
  is_none-eq none h = refl
  is_none-eq (some a) h = absurd (ground (arith, h))

  file_name-valid :
      (dir name content found : Text)
      → file_name services disk dir name content ≡ good found
      → (found ≡ name) × (is_invalid_name name ≡ false) × (disk.file dir name ≡ none)
  unfolding file_name
  file_name-valid dir name content found h =
      let (_, valid, h1) =
        >>=-eq-good (refuse_if (is_invalid_name name) "invalid artifact filename") _ h in
      let (_, _, h2) =
        >>=-eq-good (refuse_if (not (disk.opens dir)) "cannot open output directory") _ h1 in
      let (_, fresh, h3) =
        >>=-eq-good
          (refuse_if (not (disk.creates dir name && is_none (disk.file dir name)))
            "cannot create artifact (existing files are never overwritten)")
          _ h2 in
      let (_, _, h4) =
        >>=-eq-good (refuse_if (not (disk.writes content)) "artifact write failed") _ h3 in
      (
        sym (good-inj h4),
        refuse-false (is_invalid_name name) _ valid,
        is_none-eq (disk.file dir name) (ground (arith, refuse-false _ _ fresh)),
      )

  expected_given :
      (sha256 : String) (part : Part)
      → (sha256 == "") ≡ false
      → expected_digest sha256 part ≡ sha256
  unfolding expected_digest
  expected_given sha256 part given = rw (expected_digest, given) refl

  check_digest-match :
      (expected : String) (content found : Text)
      → check_digest services expected content ≡ good found
      → (expected == "") ≡ false
      → services.digest found ≡ expected
  unfolding check_digest
  check_digest-match expected content found h given =
      elim (Bool-cases (expected == services.digest content)) [
        | inl same ↦
            ap services.digest (sym (good-inj (rw (check_digest, given, same) at h)))
            ∙ sym ((str_eq_iff expected (services.digest content)).0 same)
        | inr other ↦ absurd (fault-ne-good (rw (check_digest, given, other) at h))
      ]

  module _ (m : Manager) (task_id artifact_id : String) (index : ℕ) (output_dir : Text)
      (sha256 : String) (s : Saved) where
    -- The steps of an operation that has saved a file.
    record Steps : Type 0 where
      part : Part
      name : Text
      content : Text
      checked : check_digest services (expected_digest sha256 part) content ≡ good s.content
      named : file_name services disk s.directory name s.content ≡ good s.name
      digested : s.sha256 ≡ services.digest s.content

    steps : materialize services disk m task_id artifact_id index output_dir sha256 ≡ good s → Steps
    unfolding materialize
    steps h =
        let ((task, artifact, part), _, h1) =
          >>=-eq-good (selected services m task_id artifact_id index) _ h in
        let (got, _, h2) = >>=-eq-good (content_of services task.agent part) _ h1 in
        let (content, checked, h3) =
          >>=-eq-good (check_digest services (expected_digest sha256 part) got) _ h2 in
        let (dir, _, h4) = >>=-eq-good (directory_of services disk output_dir) _ h3 in
        let (name, named, h5) =
          >>=-eq-good
            (file_name services disk dir (safe_filename services part.filename artifact index)
              content)
            _ h4 in
        let e = good-inj h5 in
        record {
          part = part;
          name = safe_filename services part.filename artifact index;
          content = got;
          checked = checked ∙ ap (λ (x : Saved). good x.content) e;
          named =
              subst
                (λ (x : Saved).
                  file_name services disk x.directory
                    (safe_filename services part.filename artifact index) x.content
                  ≡ good x.name)
                e named;
          digested = subst (λ (x : Saved). x.sha256 ≡ services.digest x.content) e refl;
        }

    -- If the operation saves a file, its name is no path (it is not empty, not `.` or `..`, and holds no
    -- slash and no byte 0), no file of that name was in the directory, the file has its content
    -- afterwards, and the digest that is reported is that of this content.
    pub materialize-IsContained :
        materialize services disk m task_id artifact_id index output_dir sha256 ≡ good s
        → IsContained services disk s
    materialize-IsContained h =
        let w = steps h in
        let (same, valid, fresh) = file_name-valid s.directory w.name s.content s.name w.named in
        record {
          plain = is_invalid_name-IsPlain s.name (ap is_invalid_name same ∙ valid);
          written = written-content services disk s;
          fresh = ap (disk.file s.directory) same ∙ fresh;
          digest = w.digested;
        }

    -- If the caller names a digest, the operation saves a content of that digest or none.
    pub materialize-digest :
        materialize services disk m task_id artifact_id index output_dir sha256 ≡ good s
        → (sha256 == "") ≡ false
        → services.digest s.content ≡ sha256
    materialize-digest h given =
        let w = steps h in
        check_digest-match sha256 w.content s.content
          (ap (λ e. check_digest services e w.content) (sym (expected_given sha256 w.part given))
            ∙ w.checked)
          given

  -- Whether or not it saves a file, the operation leaves every file that there is as it is.
  pub materialize-keeps :
      (m : Manager) (task_id artifact_id : String) (index : ℕ) (output_dir : Text) (sha256 : String)
      (d n content : Text)
      → disk.file d n ≡ some content
      → (disk_after services disk
            (materialize services disk m task_id artifact_id index output_dir sha256)).file
          d n
        ≡ some content
  unfolding disk_after
  materialize-keeps m task_id artifact_id index output_dir sha256 d n content there =
      go (materialize services disk m task_id artifact_id index output_dir sha256) refl
    where
      go :
          (r : Checked Saved)
          → materialize services disk m task_id artifact_id index output_dir sha256 ≡ r
          → (disk_after services disk r).file d n ≡ some content
      go (fault e) h = there
      go (good s) h =
          let fresh =
            (materialize-IsContained m task_id artifact_id index output_dir sha256 s h).fresh in
          elim (Bool-cases (d == s.directory && n == s.name)) [
            | inl same ↦
                let here = (text_iff d s.directory).0 (ground (arith, same)) in
                let called = (text_iff n s.name).0 (ground (arith, same)) in
                absurd (
                  some-ne-none (
                    sym there
                    ∙ ap (λ q. disk.file q n) here
                    ∙ ap (disk.file s.directory) called
                    ∙ fresh))
            | inr other ↦ rw other there
          ]

-- A part of another origin than the agent's endpoint is downloaded without the credentials of the
-- agent: what is downloaded does not depend on them.
pub content_of_foreign :
    (services : Services) (endpoint : Text) (a b : AuthSpec) (agent : String) (part : Part)
    → (origin part.url == origin endpoint) ≡ false
    → content_of (record services { resolve_endpoint = λ _. some (endpoint, a) }) agent part
      ≡ content_of (record services { resolve_endpoint = λ _. some (endpoint, b) }) agent part
unfolding content_of fetched downloaded download_auth
content_of_foreign services endpoint a b agent part other =
    ap
      (λ r.
        if not (is_empty part.raw_b64)
        then decoded (decode_base64 part.raw_b64)
        else if not (is_empty part.text)
        then good part.text
        else if not (is_empty part.json)
        then good part.json
        else if not (is_empty part.url)
        then r
        else fault (bytes "artifact part has no materializable content"))
      fetched_foreign
  where
    fetched_foreign :
        fetched
          (record services { resolve_endpoint = λ _. some (endpoint, a) })
          part.url
          (some (endpoint, a))
        ≡ fetched
            (record services { resolve_endpoint = λ _. some (endpoint, b) })
            part.url
            (some (endpoint, b))
    fetched_foreign = rw other refl
