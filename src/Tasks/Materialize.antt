-- ===== src/Tasks/Materialize.antt =====
-- daemon/src/TaskManager.cpp: `safe_filename` and `materializeArtifact`, which saves a part of an artifact
-- in a directory. The file system, SHA-256 and the download are parameters.
use a2ad.Common.{
  ℕ, ◌+◌, ◌≡◌, refl, ap, String, Bool, true, false, ◌&&◌, ◌||◌, not, Option, none, some, List, [],
  ◌∷◌, ◌++◌, ◌==◌, nat_eq, string_eq, text_eq, if◌then◌else◌, lookup, Text, bytes, get_elem?, find,
  has_byte, after_last, is_empty, starts_with,
}
use a2ad.Json.{Json, string, utf8, text_at}
use a2ad.Url.{find_from, path_at}
use a2ad.Base64.{decode_base64}
use a2ad.Credentials.{AuthSpec, no_auth}
use a2ad.A2aClient.Response.{HttpResponse, is_success}
use a2ad.Tasks.{Part, Artifact, Task, Manager}
pub mod Contained
mod Tests

-- A value, or the message that is stored in `*error`.
pub data Checked (A : Type 0) : Type 0 where
  fault : Text → Checked A
  good : A → Checked A

infixl 5 ◌>>=◌
abbrev pub ◌>>=◌ : {A B : Type 0} → Checked A → (A → Checked B) → Checked B
fault message >>= next = fault message
good a >>= next = next a

pub >>=-eq-good :
    {A B : Type 0} (first : Checked A) (next : A → Checked B) {b : B}
    → (first >>= next) ≡ good b
    → (a : A) × (first ≡ good a) × (next a ≡ good b)
>>=-eq-good (fault message) next h = cc
>>=-eq-good (good a) next h = (a, refl, h)

abbrev from_good : {A : Type 0} → A → Checked A → A
from_good d (good a) = a
from_good d (fault e) = d

pub good-inj : {A : Type 0} {a b : A} → good a ≡ good b → a ≡ b
good-inj {a = a} h = ap (from_good a) h

-- `fs::path(name).filename()`
abbrev pub filename : Text → Text
filename name = after_last b'/' name

abbrev pub is_dots : Text → Bool
is_dots name = name == bytes "." || name == bytes ".."

-- The files, by directory and name, and what the system calls answer.
pub record Disk : Type 0 where
  pub file : Text → Text → Option Text
  pub create_directories : Text → Option Text
  pub canonical : Text → Option Text
  pub current_path : Text
  pub opens : Text → Bool
  pub creates : Text → Text → Bool
  pub writes : Text → Bool

-- The services of the operation: the endpoint of an agent with its credentials, the download of a URL
-- with credentials, SHA-256 and `std::to_string`.
pub record Services : Type 0 where
  pub resolve_endpoint : String → Option (Text × AuthSpec)
  pub download : Text → AuthSpec → HttpResponse
  pub digest : Text → String
  pub to_string : ℕ → Text

-- The report of an artifact that has been saved.
pub record Saved : Type 0 where
  pub directory : Text
  pub name : Text
  pub content : Text
  pub sha256 : String
  pub verified : Bool

abbrev file_or : Text → Text → Text
file_or name d = if is_empty name || is_dots name then d else name

unfoldable pub origin_at : Text → Option ℕ → Text
unfolding path_at
origin_at url none = []
origin_at url (some scheme) = (path_at url (find_from (scheme + 3) url (bytes "/"))).0

-- The scheme and the authority of a URL.
unfoldable pub origin : Text → Text
origin url = origin_at url (find url (bytes "://"))

unfoldable pub find_artifact : String → List Artifact → Option Artifact
find_artifact id [] = none
find_artifact id (a ∷ as') = if a.artifact_id == id then some a else find_artifact id as'

-- The digest that the part names, unless the caller has named one.
unfoldable pub expected_digest : String → Part → String
unfolding text_at
expected_digest given part =
    if given == "" then elim (text_at "sha256" part.metadata) [ none ↦ "" | some s ↦ s ] else given

-- Whether a file of this name would be in the directory itself.
unfoldable pub is_invalid_name : Text → Bool
is_invalid_name name = is_empty name || is_dots name || has_byte b'/' name || has_byte 0 name

unfoldable pub decoded : Option Text → Checked Text
decoded none = fault (bytes "invalid base64 artifact data")
decoded (some content) = good content

unfoldable pub require : {A : Type 0} → Text → Option A → Checked A
require message none = fault message
require message (some a) = good a

abbrev pub is_none : {A : Type 0} → Option A → Bool
is_none none = true
is_none (some a) = false

abbrev pub refuse_if : Bool → String → Checked (Unit {0})
refuse_if true message = fault (bytes message)
refuse_if false message = good tt

module _ (services : Services) where
  unfoldable pub safe_filename : Text → Artifact → ℕ → Text
  unfolding utf8
  safe_filename name artifact index =
      let named = filename (file_or (filename name) (utf8 artifact.name)) in
      if is_empty named
      then utf8 artifact.artifact_id ++ bytes "-part-" ++ services.to_string index
      else named

  -- No agent's credentials for another origin.
  unfoldable pub download_auth : Text → Text → AuthSpec → AuthSpec
  download_auth url endpoint auth = if origin url == origin endpoint then auth else no_auth

  unfoldable pub downloaded : HttpResponse → Checked Text
  downloaded r =
      if r.transport_error
      then fault r.transport_error_detail
      else if not (is_success r.status)
      then fault (bytes "artifact download returned HTTP " ++ services.to_string r.status)
      else good r.body

  unfoldable pub fetched : Text → Option (Text × AuthSpec) → Checked Text
  fetched url none = fault (bytes "unknown task agent")
  fetched url (some (endpoint, auth)) =
      if not (starts_with url (bytes "https://")) && not (starts_with url (bytes "http://"))
      then fault (bytes "artifact URL must use HTTP(S)")
      else downloaded (services.download url (download_auth url endpoint auth))

  unfoldable pub content_of : String → Part → Checked Text
  unfolding decode_base64
  content_of agent part =
      if not (is_empty part.raw_b64)
      then decoded (decode_base64 part.raw_b64)
      else if not (is_empty part.text)
      then good part.text
      else if not (is_empty part.json)
      then good part.json
      else if not (is_empty part.url)
      then fetched part.url (services.resolve_endpoint agent)
      else fault (bytes "artifact part has no materializable content")

  unfoldable pub check_digest : String → Text → Checked Text
  check_digest expected content =
      if not (expected == "") && not (expected == services.digest content)
      then fault (bytes "artifact SHA-256 mismatch")
      else good content

  unfoldable pub selected : Manager → String → String → ℕ → Checked (Task × Artifact × Part)
  selected m task_id artifact_id index = do
    task ← require (bytes "no such task: " ++ bytes task_id) (lookup task_id m.tasks)
    artifact ←
        require (bytes "no such artifact: " ++ bytes artifact_id)
          (find_artifact artifact_id task.artifacts)
    part ← require (bytes "artifact part index out of range") (get_elem? artifact.parts index)
    good (task, artifact, part)

  unfoldable pub made_directory : Option Text → Checked (Unit {0})
  made_directory none = good tt
  made_directory (some why) = fault (bytes "cannot create output directory: " ++ why)

  unfoldable pub directory_of : Disk → Text → Checked Text
  directory_of disk output_dir =
      let dir = if is_empty output_dir then disk.current_path else output_dir in
      made_directory (disk.create_directories dir) >>= λ _.
      require (bytes "cannot resolve output directory") (disk.canonical dir)

  unfoldable pub file_name : Disk → Text → Text → Text → Checked Text
  file_name disk dir name content = do
    _ ← refuse_if (is_invalid_name name) "invalid artifact filename"
    _ ← refuse_if (not (disk.opens dir)) "cannot open output directory"
    _ ←
        refuse_if (not (disk.creates dir name && is_none (disk.file dir name)))
          "cannot create artifact (existing files are never overwritten)"
    _ ← refuse_if (not (disk.writes content)) "artifact write failed"
    good name

  -- `materializeArtifact`, up to the new file. A file that cannot be written is removed again.
  unfoldable pub materialize : Disk → Manager → String → String → ℕ → Text → String → Checked Saved
  materialize disk m task_id artifact_id index output_dir sha256 = do
    (task, artifact, part) ← selected m task_id artifact_id index
    fetched_content ← content_of task.agent part
    content ← check_digest (expected_digest sha256 part) fetched_content
    dir ← directory_of disk output_dir
    name ← file_name disk dir (safe_filename part.filename artifact index) content
    good (record {
      directory = dir;
      name = name;
      content = content;
      sha256 = services.digest content;
      verified = not (expected_digest sha256 part == "");
    })

  abbrev pub write_file :
      Text → Text → Text → (Text → Text → Option Text) → Text → Text → Option Text
  write_file dir name content file d n = if d == dir && n == name then some content else file d n

  -- The files afterwards.
  unfoldable pub disk_after : Disk → Checked Saved → Disk
  disk_after disk (fault e) = disk
  disk_after disk (good s) = record disk {
    file = write_file s.directory s.name s.content disk.file;
  }
