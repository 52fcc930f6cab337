-- ===== src/Cli/Credentials.antt =====
-- cli/internal/credentials/credentials.go: the file ~/.postulate/auth.json.
pub mod Store
pub mod Expiry
use postulate.Base.{
  ℕ, ◌+◌, ◌*◌, String, Bool, true, Option, none, some, List, ltb, lookup, remove, put,
}
use Prim.Native.String.{◌++◌}
use postulate.Base.Result.{Error, Result, M, ok, err, wrap, message}
use postulate.Auth.StateStore.{second}

-- 0o700 and 0o600
abbrev pub dir_perm : ℕ
dir_perm = 7 * 64

abbrev pub file_perm : ℕ
file_perm = 6 * 64

pub record AuthFile : Type 0 where
  pub token : String
  pub refresh_token : String
  pub expires_at : String
  pub role : String
  pub api_url : String

pub record File : Type 0 where
  pub content : String
  pub perm : ℕ

pub data Operation : Type 0 where
  read mkdir write unlink : Operation

-- What the program sees of the system: the home directory or an error, the files and directories by
-- path, and the failure that each operation has in store.
pub record Disk : Type 0 where
  pub home : Result String
  pub files : List (String × File)
  pub dirs : List (String × ℕ)
  pub fault : Operation → Option Error

-- encoding/json on an AuthFile
pub record Json : Type 0 where
  pub marshal : AuthFile → Result String
  pub unmarshal : String → Result AuthFile

-- credentials.ErrNotFound
abbrev pub auth_file_not_found : Error
auth_file_not_found = message "auth file not found"

-- filepath.Dir(path), and authFilePath, for a home directory that filepath.Join leaves as it is.
abbrev pub auth_dir : String → String
auth_dir home = home ++ "/.postulate"

abbrev pub auth_path : String → String
auth_path home = home ++ "/.postulate/auth.json"

unfoldable pub auth_file_path : Disk → Result String
auth_file_path d = elim d.home [
  | err e ↦ err (wrap "resolve home dir" e)
  | ok home ↦ ok (auth_path home)
]

-- os.ReadFile: none if there is no such file.
abbrev pub read_file : String → Disk → Result (Option String)
read_file path d = elim (d.fault read) [
  | some e ↦ err e
  | none ↦ elim (lookup path d.files) [ none ↦ ok none | some f ↦ ok (some f.content) ]
]

-- os.MkdirAll: a directory that is there keeps its permissions.
abbrev pub mkdir_all : String → ℕ → M Disk (Unit {0})
mkdir_all path perm d = elim (d.fault mkdir) [
  | some e ↦ (err e, d)
  | none ↦ elim (lookup path d.dirs) [
    | some old ↦ (ok tt, d)
    | none ↦ (ok tt, record d { dirs = put path perm d.dirs })
  ]
]

-- os.WriteFile: the permissions are for a file that it creates; one that is there keeps its own.
abbrev pub perm_after : ℕ → Option File → ℕ
perm_after perm none = perm
perm_after perm (some old) = old.perm

abbrev pub write_file : String → String → ℕ → M Disk (Unit {0})
write_file path content perm d = elim (d.fault write) [
  | some e ↦ (err e, d)
  | none ↦ (
    ok tt,
    record d {
      files =
          put path (record { content = content; perm = perm_after perm (lookup path d.files) })
            d.files;
    },
  )
]

-- os.Remove: the file's absence is no error for Delete.
abbrev pub remove_file : String → M Disk (Unit {0})
remove_file path d = elim (d.fault unlink) [
  | some e ↦ (err e, d)
  | none ↦ (ok tt, record d { files = remove path d.files })
]

abbrev pub in_context : {A : Type 0} → String → Result A × Disk → Result A × Disk
in_context context (ok a, d) = (ok a, d)
in_context context (err e, d) = (err (wrap context e), d)

-- Load
unfoldable pub load : Json → Disk → Result AuthFile
unfolding auth_file_path
load json d = elim (auth_file_path d) [
  | err e ↦ err e
  | ok path ↦ elim (read_file path d) [
    | err e ↦ err (wrap "read auth file" e)
    | ok none ↦ err auth_file_not_found
    | ok (some content) ↦ elim (json.unmarshal content) [
      | err e ↦ err (wrap "parse auth file" e)
      | ok af ↦ ok af
    ]
  ]
]

-- The steps of Save once the path is known.
abbrev pub write_auth : Json → AuthFile → String → M Disk (Unit {0})
write_auth json af path d = elim (json.marshal af) [
  | err e ↦ (err (wrap "marshal auth file" e), d)
  | ok content ↦ in_context "write auth file" (write_file path content file_perm d)
]

abbrev pub after_mkdir :
    Json → AuthFile → String → Result (Unit {0}) × Disk → Result (Unit {0}) × Disk
after_mkdir json af path (err e, d) = (err (wrap "create credentials dir" e), d)
after_mkdir json af path (ok done, d) = write_auth json af path d

-- Save
unfoldable pub save : Json → AuthFile → M Disk (Unit {0})
save json af d = elim d.home [
  | err e ↦ (err (wrap "resolve home dir" e), d)
  | ok home ↦ after_mkdir json af (auth_path home) (mkdir_all (auth_dir home) dir_perm d)
]

-- Delete
unfoldable pub delete : M Disk (Unit {0})
delete d = elim d.home [
  | err e ↦ (err (wrap "resolve home dir" e), d)
  | ok home ↦ in_context "delete auth file" (remove_file (auth_path home) d)
]

-- 30*time.Minute
abbrev pub refresh_margin : ℕ
refresh_margin = 1800 * second

-- NeedsRefresh at `now`, with time.Parse(time.RFC3339, …).
unfoldable pub needs_refresh : (String → Option ℕ) → ℕ → AuthFile → Bool
needs_refresh parse now af = elim (parse af.expires_at) [
  | none ↦ true
  | some t ↦ ltb t (now + refresh_margin)
]
