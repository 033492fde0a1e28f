-- ===== src/Daemon/Ordered.antt =====
-- The calls of a piece of the program, as steps between what is held open.
use bancod.Prelude.{
  ◌≡◌, refl, sym, ◌∙◌, ap, subst, inl, inr, Bool, true, false, ◌&&◌, List, [], ◌∷◌, ◌++◌, some,
  Option-cases, arith, if◌then◌else◌,
}
use mathlib.Core.Option.{some-injective}
use bancod.Daemon.{Call, Answer, Answers, Proc, ◌>>=◌, done, call, attempt, or_fatal}
use bancod.Daemon.Held.{Held, after_answer, held, is_layered}

module _ (answers : Answers) where
  -- What is held is in order behind each of the calls.
  abbrev pub is_ordered : Held → List Call → Bool
  is_ordered h [] = is_layered h
  is_ordered h (c ∷ cs) = is_layered h && is_ordered (after_answer (answers c) h c) cs

  -- From h on, the calls are in order, and a result leaves what `f` says of it.
  pub record Leaves {A : Type 0} (h : Held) (m : Proc A) (f : A → Held) : Type 0 where
    pub ordered : is_ordered h m.calls ≡ true
    pub left : (a : A) → m.result ≡ some a → held answers h m.calls ≡ f a

  held-append :
      (h : Held) (cs ds : List Call)
      → held answers h (cs ++ ds) ≡ held answers (held answers h cs) ds
  held-append h [] ds = refl
  held-append h (c ∷ cs) ds = held-append (after_answer (answers c) h c) cs ds

  is_ordered-append :
      (h : Held) (cs ds : List Call)
      → is_ordered h cs ≡ true
      → is_ordered (held answers h cs) ds ≡ true
      → is_ordered h (cs ++ ds) ≡ true
  is_ordered-append h [] ds e e' = e'
  is_ordered-append h (c ∷ cs) ds e e' =
      let rest = is_ordered-append (after_answer (answers c) h c) cs ds (ground arith) e' in
      ground arith

  pub is_ordered-end :
      (h : Held) (cs : List Call) → is_ordered h cs ≡ true → is_layered (held answers h cs) ≡ true
  is_ordered-end h [] e = e
  is_ordered-end h (c ∷ cs) e = is_ordered-end (after_answer (answers c) h c) cs (ground arith)

  -- Whatever is the next call, what is held is in order.
  pub is_ordered-prefix :
      (h : Held) (before behind : List Call)
      → is_ordered h (before ++ behind) ≡ true
      → is_layered (held answers h before) ≡ true
  is_ordered-prefix h [] [] e = e
  is_ordered-prefix h [] (c ∷ cs) e = ground arith
  is_ordered-prefix h (c ∷ cs) behind e =
      is_ordered-prefix (after_answer (answers c) h c) cs behind (ground arith)

  pub done-Leaves :
      {A : Type 0} (h : Held) (a : A) (f : A → Held)
      → is_layered h ≡ true
      → h ≡ f a
      → Leaves h (done a) f
  unfolding done
  done-Leaves h a f e same = record {
    ordered = e;
    left = λ b q. same ∙ ap f (some-injective _ _ q);
  }

  pub call-Leaves :
      (h : Held) (c : Call)
      → is_layered h ≡ true
      → is_layered (after_answer (answers c) h c) ≡ true
      → Leaves h (call c) (λ u. after_answer (answers c) h c)
  unfolding call
  call-Leaves h c e e' = record { ordered = rw (e, e') refl; left = λ u q. refl }

  pub attempt-Leaves :
      (is_fine : Answer → Bool) (h : Held) (c : Call) (f : Bool → Held)
      → is_layered h ≡ true
      → ((x : Answer)
          → (is_layered (after_answer x h c) ≡ true) × (after_answer x h c ≡ f (is_fine x)))
      → Leaves h (attempt is_fine answers c) f
  unfolding attempt
  attempt-Leaves is_fine h c f e each =
      let (e', same) = each (answers c) in
      record { ordered = rw (e, e') refl; left = λ b q. same ∙ ap f (some-injective _ _ q) }

  -- `if b then call c`
  pub when-Leaves :
      (b : Bool) (h h' : Held) (c : Call)
      → is_layered h ≡ true
      → is_layered h' ≡ true
      → (b ≡ true → after_answer (answers c) h c ≡ h')
      → (b ≡ false → h ≡ h')
      → Leaves h (if b then call c else done tt) (λ u. h')
  unfolding call
  when-Leaves true h h' c e e' closed kept = record {
    ordered = rw (e, closed refl, e') refl;
    left = λ u q. closed refl;
  }
  when-Leaves false h h' c e e' closed kept = done-Leaves h tt (λ u. h') e (kept refl)

  -- One piece behind another.
  pub then-Leaves :
      {A B : Type 0} (h : Held) (m : Proc A) (f : A → Held) (next : A → Proc B) (g : B → Held)
      → Leaves h m f
      → ((a : A) → is_layered (f a) ≡ true → Leaves (f a) (next a) g)
      → Leaves h (m >>= next) g
  unfolding ◌>>=◌
  then-Leaves {A} {B} h m f next g first rest = elim (Option-cases m.result) [
    | inl gone ↦ rw gone (record { ordered = first.ordered; left = λ b q. absurd cc })
    | inr (a, given) ↦ rw given (behind a given)
  ]
    where
      behind :
          (a : A)
          → m.result ≡ some a
          → Leaves h (record { calls = m.calls ++ (next a).calls; result = (next a).result }) g
      behind a given =
          let same = first.left a given in
          let fine =
            subst (λ x. is_layered x ≡ true) same (is_ordered-end h m.calls first.ordered) in
          let second = subst (λ x. Leaves x (next a) g) (sym same) (rest a fine) in
          record {
            ordered = is_ordered-append h m.calls (next a).calls first.ordered second.ordered;
            left = λ b q. held-append h m.calls (next a).calls ∙ second.left b q;
          }

  pub or_fatal-Leaves :
      (b : Bool) (h : Bool → Held)
      → is_layered (h b) ≡ true
      → Leaves (h b) (or_fatal b) (λ u. h true)
  unfolding or_fatal done
  or_fatal-Leaves true h e = record { ordered = e; left = λ u q. refl }
  or_fatal-Leaves false h e = record { ordered = e; left = λ u q. absurd cc }
