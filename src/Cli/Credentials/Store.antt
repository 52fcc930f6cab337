-- ===== src/Cli/Credentials/Store.antt =====
-- What is saved can be loaded, and by whom it can be read.
use postulate.Base.{
  ap, ◌∙◌, ◌≡◌, String, none, some, lookup, put, lookup-put, lookup-remove, eq_refl, arith, inl,
  inr,
}
use postulate.Base.Result.{ok, err, Result-cases}
use postulate.Cli.Credentials.{
  AuthFile, File, Disk, Json, read, auth_path, auth_file_not_found, file_perm, perm_after, load,
  save, delete,
}

-- encoding/json: what Marshal writes of an AuthFile, Unmarshal reads back.
abbrev pub ReadsBack : Json → Type 0
ReadsBack json =
    (af : AuthFile) (text : String) → json.marshal af ≡ ok text → json.unmarshal text ≡ ok af

-- What a save that succeeds has done.
saved :
    (json : Json) (af : AuthFile) (d d' : Disk)
    → save json af d ≡ (ok tt, d')
    → (home : String) × (text : String) × (d.home ≡ ok home)
      × (json.marshal af ≡ ok text)
      × (d'.home ≡ d.home)
      × (d'.fault ≡ d.fault)
      × (lookup (auth_path home) d'.files
          ≡ some (record {
            content = text;
            perm = perm_after file_perm (lookup (auth_path home) d.files);
          }))
unfolding save
saved json af d d' h = elim (Result-cases d.home) [
  | inr (e, failed) ↦ absurd (ground arith)
  | inl (home, there) ↦ elim (Result-cases (json.marshal af)) [
    | inr (e, failed) ↦ absurd (ground arith)
    | inl (text, made) ↦
        let written : d'.files
            ≡ put (auth_path home)
                (record {
                  content = text;
                  perm = perm_after file_perm (lookup (auth_path home) d.files);
                })
                d.files =
          ground arith in
        (
          home,
          text,
          there,
          made,
          ground arith,
          ground arith,
          ap (lookup (auth_path home)) written ∙ simp (lookup-put, eq_refl),
        )
  ]
]

-- What a save that succeeds wrote is what the next load gives, if the file can be read.
pub load-save :
    (json : Json) (af : AuthFile) (d d' : Disk)
    → ReadsBack json
    → d.fault read ≡ none
    → save json af d ≡ (ok tt, d')
    → load json d' ≡ ok af
unfolding load
load-save json af d d' back readable h =
    let (home, text, there, made, same, faults, found) = saved json af d d' h in
    let quiet : d'.fault read ≡ none = rw faults readable in ground (arith, back af text made)

-- A save that succeeds writes into an auth file that is there without changing its permissions, and
-- does not make it private to the user.
pub save_keeps_perm :
    (json : Json) (af : AuthFile) (d d' : Disk) (home : String) (old : File)
    → d.home ≡ ok home
    → lookup (auth_path home) d.files ≡ some old
    → save json af d ≡ (ok tt, d')
    → (text : String) × (json.marshal af ≡ ok text)
      × (lookup (auth_path home) d'.files ≡ some (record { content = text; perm = old.perm }))
save_keeps_perm json af d d' home old at_home there h =
    let (home', text, at_home', made, same, faults, found) = saved json af d d' h in
    let one : home' ≡ home = ground arith in (text, made, ground arith)

-- After a delete that succeeds, a load finds no auth file, whether there was one or not.
pub load-delete :
    (json : Json) (d d' : Disk)
    → d.fault read ≡ none
    → delete d ≡ (ok tt, d')
    → load json d' ≡ err auth_file_not_found
unfolding load delete
load-delete json d d' readable h = elim (Result-cases d.home) [
  | inr (e, failed) ↦ absurd (ground arith)
  | inl (home, there) ↦
      ground
        (arith, lookup-remove (auth_path home) (auth_path home) d.files, eq_refl (auth_path home))
]
