-- ===== src/Migrate/Startup.antt =====
-- pkg/pgmodel/migrate.go: the function Migrate, around the migrator: its mutex, the connection that it holds, the
-- extension and the metadata. The pool and its statements are a parameter.
use timescale_prometheus.Prelude.Bytes.{Bytes, codes}
use timescale_prometheus.Migrate.{Versions, Database, Files, migrate}
use timescale_prometheus.Migrate.Atomic.{Versioned, with_table, migrate_atomic}
use timescale_prometheus.Prelude.{
  ℕ, ◌+◌, ◌-◌, ◌≡◌, refl, ◌⊎◌, inl, inr, Bool, true, false, Option, none, some, is_some,
  if◌then◌else◌, arith, Bool-cases, Option-cases,
}

-- Whether a connection can be had, the statement that installs the extension, and the one that sets a key of the
-- metadata, with the extension or without, whose error is ignored.
pub record Pool (S : Type 0) : Type 0 where
  pub acquires : S → Bool
  pub install : S → Option S
  pub update_metadata : Bool → Bytes → Bytes → S → S

-- `migrateMutex`, `ExtensionIsInstalled`, the connections that are acquired, and the contents of the database.
pub record Startup (S : Type 0) : Type 0 where
  pub locked : Bool
  pub extension_is_installed : Bool
  pub acquired : ℕ
  pub contents : S

module _ {S V : Type 0} (versions : Versions V) (db : Database S V) (files : Files)
    (pool : Pool S) where
  -- `installExtension`
  unfoldable pub install_extension : Startup S → Startup S
  install_extension a = elim (pool.install a.contents) [
    | none ↦ record a { extension_is_installed = false }
    | some s ↦ record a { extension_is_installed = true; contents = s }
  ]

  -- `metadataUpdate`
  unfoldable pub metadata_update : Bytes → Bytes → Startup S → Startup S
  metadata_update key value a = record a {
    contents = pool.update_metadata a.extension_is_installed key value a.contents;
  }

  -- `Migrate` from the connection on.
  unfoldable pub migrate_connected : Bytes → Bytes → Startup S → Bool × Startup S
  unfolding migrate install_extension metadata_update
  migrate_connected version commit_hash a = elim (versions.make version) [
    | none ↦ (false, a)
    | some app_version ↦
        let (ok, s) = migrate versions db files app_version a.contents in
        let a1 = record a { contents = s } in
        let a2 =
          metadata_update (codes "commit_hash") commit_hash
            (metadata_update (codes "version") version (install_extension a1)) in
        if ok then (true, a2) else (false, a1)
  ]

  -- `Migrate`; none waits for the mutex. The calls that are deferred give back the connection and the mutex.
  unfoldable pub migrate_app : Bytes → Bytes → Startup S → Option (Bool × Startup S)
  unfolding migrate_connected
  migrate_app version commit_hash a =
      let begun = record a { locked = true; extension_is_installed = false } in
      let (ok, a') =
        migrate_connected version commit_hash (record begun { acquired = a.acquired + 1 }) in
      if a.locked
      then none
      else if pool.acquires a.contents
      then some (ok, record a' { acquired = a'.acquired - 1; locked = false })
      else some (false, record begun { locked = false })

module _ {S V : Type 0} (versions : Versions V) (db : Database S V) (files : Files) (pool : Pool S)
    (laws : Versioned versions db files) where
  -- What `Migrate` leaves behind on a free mutex: the mutex is free and the connection given back; after a failure
  -- the extension counts as not installed and the contents are as they were, with the table of versions at most;
  -- after a success the version is that of the application, and whether the extension counts as installed is what
  -- came of installing it.
  pub record IsMigrated (version commit_hash : Bytes) (before : Startup S) (ok : Bool)
      (after : Startup S) : Type 0 where
    pub unlocked : after.locked ≡ false
    pub released : after.acquired ≡ before.acquired
    pub failure :
        ok ≡ false
        → (after.extension_is_installed ≡ false)
          × ((after.contents ≡ before.contents)
              ⊎ (after.contents ≡ with_table versions db files laws before.contents))
    pub success :
        ok ≡ true
        → (app : V) × (s : S) × (versions.make version ≡ some app)
          × (migrate versions db files app before.contents ≡ (true, s))
          × (after.extension_is_installed ≡ is_some (pool.install s))

  -- The same, before the calls that are deferred.
  record IsConnected (version : Bytes) (before : Startup S) (ok : Bool) (after : Startup S)
      : Type 0 where
    held : after.acquired ≡ before.acquired
    failure :
        ok ≡ false
        → (after.extension_is_installed ≡ false)
          × ((after.contents ≡ before.contents)
              ⊎ (after.contents ≡ with_table versions db files laws before.contents))
    success :
        ok ≡ true
        → (app : V) × (s : S) × (versions.make version ≡ some app)
          × (migrate versions db files app before.contents ≡ (true, s))
          × (after.extension_is_installed ≡ is_some (pool.install s))

  migrate_connected-IsConnected :
      (version commit_hash : Bytes) (a : Startup S)
      → IsConnected version
          (record a { extension_is_installed = false })
          (migrate_connected versions db files pool version commit_hash
            (record a { extension_is_installed = false })).0
          (migrate_connected versions db files pool version commit_hash
            (record a { extension_is_installed = false })).1
  unfolding migrate_connected install_extension metadata_update
  migrate_connected-IsConnected version commit_hash a =
      elim (Option-cases (versions.make version)) [
        | inl e ↦
            rw (migrate_connected, e)
              (record {
                held = refl;
                failure = λ h. (refl, inl refl);
                success = λ h. absurd (ground arith);
              })
        | inr (app, e) ↦
            let (failed_as, _) = migrate_atomic versions db files laws app a.contents in
            elim (Bool-cases (migrate versions db files app a.contents).0) [
              | inl f ↦
                  let s = (migrate versions db files app a.contents).1 in
                  let done : migrate versions db files app a.contents ≡ (true, s) = ground arith in
                  rw (migrate_connected, metadata_update, install_extension, e, f)
                    (record {
                      held = ground arith;
                      failure = λ h. absurd (ground arith);
                      success = λ h. (app, s, e, done, ground arith);
                    })
              | inr f ↦
                  rw (migrate_connected, e, f)
                    (record {
                      held = refl;
                      failure = λ h. (refl, inr (failed_as f));
                      success = λ h. absurd (ground arith);
                    })
            ]
      ]

  -- On a free mutex the function Migrate returns, with the mutex free and as many connections
  -- acquired as before; if it fails, the extension counts as not installed and the contents are as
  -- they were, or as they were with the table of versions; if it succeeds, the version could be
  -- read, the migrator succeeded for it, and the extension counts as installed exactly if it could
  -- be installed on what the migrator left. This is for a database where a truncated table of
  -- versions has no row, a version inserted into a table without rows is the one that is read, and
  -- no script of the directory idempotent changes what is read, and for versions that are the same
  -- as themselves, and a transaction that is not reported as committed changes nothing.
  pub migrate_app_lem :
      (version commit_hash : Bytes) (a : Startup S)
      → a.locked ≡ false
      → (ok : Bool) × (a' : Startup S) × (migrate_app versions db files pool version commit_hash a
          ≡ some (ok, a'))
        × IsMigrated version commit_hash a ok a'
  unfolding migrate_app
  migrate_app_lem version commit_hash a free =
      let b : Startup S = record a { locked = true; acquired = a.acquired + 1 } in
      let begun : Startup S = record b { extension_is_installed = false } in
      let k = migrate_connected-IsConnected version commit_hash b in
      let (ok, a') = migrate_connected versions db files pool version commit_hash begun in
      let held = k.held in
      elim (Bool-cases (pool.acquires a.contents)) [
        | inr e ↦ (
          false,
          record a { locked = false; extension_is_installed = false },
          ground arith,
          record {
            unlocked = refl;
            released = refl;
            failure = λ h. (refl, inl refl);
            success = λ h. absurd (ground arith);
          },
        )
        | inl e ↦ (
          ok,
          record a' { acquired = a'.acquired - 1; locked = false },
          ground arith,
          record {
            unlocked = refl;
            released = ground arith;
            failure = k.failure;
            success = k.success;
          },
        )
      ]
