-- ===== src/Daemon/Opened.antt =====
-- The database and the wallet: what is open behind each call of main up to the service.
use bancod.Prelude.{◌≡◌, refl, sym, subst, Bool, true, false, Bytes, text, if◌then◌else◌}
use bancod.Config.{Config}
use bancod.Config.Path.{join}
use bancod.Daemon.{
  Call, open_sqlite, enable_wal, migration_source, migration_driver, migration_instance, migrate_up,
  close_db, new_ark_client, init_ark, unlock_ark, Answer, fine, no_change, failed, Answers,
  no_error, migrated, Proc, ◌>>=◌, done, call, attempt, or_fatal, and_then, run_migrations,
  or_close_db, open_db, unlock_wallet,
}
use bancod.Daemon.Held.{Held, nothing, after_answer, is_layered}
use bancod.Daemon.Ordered.{
  Leaves, done-Leaves, call-Leaves, attempt-Leaves, then-Leaves, or_fatal-Leaves,
}

abbrev pub with_db : Held
with_db = record nothing { db = true }

abbrev pub dialed : Held
dialed = record with_db { introspector = true }

abbrev pub unlocked : Held
unlocked = record dialed { wallet = true }

-- The database, if OpenDB gives one.
abbrev pub if_open : Bool → Held
if_open b = if b then with_db else nothing

module _ (answers : Answers) where
  pub idle_attempt :
      (is_fine : Answer → Bool) (h : Held) (c : Call)
      → is_layered h ≡ true
      → ((x : Answer) → after_answer x h c ≡ h)
      → Leaves answers h (attempt is_fine answers c) (λ b. h)
  idle_attempt is_fine h c e same =
      attempt-Leaves answers is_fine h c (λ b. h) e
        (λ x. (subst (λ y. is_layered y ≡ true) (sym (same x)) e, same x))

  and_then-Leaves :
      (h : Held) (first rest : Proc Bool) (f g : Bool → Held)
      → Leaves answers h first f
      → Leaves answers (f true) rest g
      → f false ≡ g false
      → Leaves answers h (and_then first rest) g
  unfolding and_then
  and_then-Leaves h first rest f g a b same =
      then-Leaves answers h first f (λ passed. if passed then rest else done false) g a branch
    where
      branch :
          (passed : Bool)
          → is_layered (f passed) ≡ true
          → Leaves answers (f passed) (if passed then rest else done false) g
      branch true e = b
      branch false e = done-Leaves answers (f false) false g e same

  run_migrations-Leaves :
      (h : Held) → is_layered h ≡ true → Leaves answers h (run_migrations answers) (λ b. h)
  unfolding run_migrations
  run_migrations-Leaves h e =
      let kept = λ (f : Answer → Bool) (c : Call) (k : (x : Answer) → after_answer x h c ≡ h).
        idle_attempt f h c e k in
      and_then-Leaves h _ _ (λ b. h) (λ b. h) (kept no_error migration_source (λ x. refl))
        (and_then-Leaves h _ _ (λ b. h) (λ b. h) (kept no_error migration_driver (λ x. refl))
          (and_then-Leaves h _ _ (λ b. h) (λ b. h) (kept no_error migration_instance (λ x. refl))
            (kept migrated migrate_up (λ x. refl)) refl)
          refl)
        refl

  or_close_db-Leaves :
      (m : Proc Bool)
      → Leaves answers with_db m (λ b. with_db)
      → Leaves answers with_db (or_close_db answers m) if_open
  unfolding or_close_db
  or_close_db-Leaves m a = then-Leaves answers with_db m (λ b. with_db) _ if_open a branch
    where
      branch :
          (passed : Bool)
          → is_layered with_db ≡ true
          → Leaves answers with_db
              (if passed then done true else call close_db >>= (λ (u : Unit {0}). done false))
              if_open
      branch true e = done-Leaves answers with_db true if_open refl refl
      branch false e =
          then-Leaves answers with_db (call close_db) (λ u. nothing) _ if_open
            (call-Leaves answers with_db close_db refl refl)
            (λ u e. done-Leaves answers nothing false if_open refl refl)

  pub open_db-Leaves : (datadir : Bytes) → Leaves answers nothing (open_db answers datadir) if_open
  unfolding open_db
  open_db-Leaves datadir =
      and_then-Leaves nothing _ _ if_open if_open
        (attempt-Leaves answers no_error nothing (open_sqlite (join datadir (text "bancod.db")))
          if_open refl opened)
        (and_then-Leaves with_db _ _ if_open if_open
          (or_close_db-Leaves _ (idle_attempt no_error with_db enable_wal refl (λ x. refl)))
          (or_close_db-Leaves _ (run_migrations-Leaves with_db refl)) refl)
        refl
    where
      opened :
          (x : Answer)
          → (is_layered (after_answer x nothing (open_sqlite (join datadir (text "bancod.db"))))
              ≡ true)
            × (after_answer x nothing (open_sqlite (join datadir (text "bancod.db")))
                ≡ if_open (no_error x))
      opened fine = (refl, refl)
      opened no_change = (refl, refl)
      opened failed = (refl, refl)

  -- A call whose error is fatal, in front of the rest and at the end.
  pub fatal-Leaves :
      {B : Type 0} (h : Held) (m : Proc Bool) (f : Bool → Held) (rest : Proc B) (g : B → Held)
      → Leaves answers h m f
      → (is_layered (f true) ≡ true → Leaves answers (f true) rest g)
      → Leaves answers h (m >>= (λ b. or_fatal b >>= (λ (u : Unit {0}). rest))) g
  fatal-Leaves h m f rest g a r = then-Leaves answers h m f _ g a (λ b e.
      then-Leaves answers (f b) (or_fatal b) (λ u. f true) _ g (or_fatal-Leaves answers b f e)
        (λ u e'. r e'))

  pub last_fatal-Leaves :
      (h : Held) (m : Proc Bool) (f : Bool → Held)
      → Leaves answers h m f
      → Leaves answers h (m >>= or_fatal) (λ u. f true)
  last_fatal-Leaves h m f a =
      then-Leaves answers h m f or_fatal (λ u. f true) a (λ b e. or_fatal-Leaves answers b f e)

  pub unlock_wallet-Leaves :
      (cfg : Config) → Leaves answers dialed (unlock_wallet answers cfg) (λ u. unlocked)
  unfolding unlock_wallet
  unlock_wallet-Leaves cfg =
      fatal-Leaves dialed _ (λ b. dialed) _ (λ u. unlocked)
        (idle_attempt no_error dialed (new_ark_client cfg.datadir) refl (λ x. refl))
        (λ e.
          fatal-Leaves dialed _ (λ b. dialed) _ (λ u. unlocked)
            (idle_attempt no_error dialed (init_ark cfg.ark_url cfg.wallet_seed cfg.wallet_password)
              refl (λ x. refl))
            (λ e. last_fatal-Leaves dialed _ if_unlocked (
              attempt-Leaves answers no_error dialed (unlock_ark cfg.wallet_password) if_unlocked
                refl tried)))
    where
      if_unlocked : Bool → Held
      if_unlocked b = if b then unlocked else dialed

      tried :
          (x : Answer)
          → (is_layered (after_answer x dialed (unlock_ark cfg.wallet_password)) ≡ true)
            × (after_answer x dialed (unlock_ark cfg.wallet_password) ≡ if_unlocked (no_error x))
      tried fine = (refl, refl)
      tried no_change = (refl, refl)
      tried failed = (refl, refl)
