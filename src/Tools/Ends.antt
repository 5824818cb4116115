-- ===== src/Tools/Ends.antt =====
-- What a tool leaves: its result is the last thing that it writes, or it fails without one. A step in
-- front of the result has a postcondition for its value, and one for its error.
use mathlib.Core.List.{append_assoc}
use llvm_bleach.Base.{
  ◌≡◌, refl, subst, Bool, false, [], ◌∷◌, ◌++◌, All, All-append, ◌⊎◌, inl, inr, Result, ok, err,
}
use llvm_bleach.Tools.{
  Sink, Writes, Tool, Exit, ◌>>=◌, lift_result, catch_all, exit_success, exit_failure,
}

-- Nothing of what is written is a result.
abbrev pub NoResult : {C : Type 0} → (C → Bool) → Writes C → Type 0
NoResult is_result ws = All (λ w. is_result w.1 ≡ false) ws

-- Nothing is asked of a value.
abbrev pub Any : {A : Type 0} → A → Type 0
Any a = Unit

module _ {C E : Type 0} (is_result : C → Bool) (Fails : E → Type 0) where
  -- A step that writes no result: `Good` holds of its value, and `Fails` of its error.
  abbrev pub Step : {A : Type 0} → (A → Type 0) → Tool C E A → Type 0
  Step Good (ws, ok a) = NoResult is_result ws × Good a
  Step Good (ws, err e) = NoResult is_result ws × Fails e

  pub Step-lift_result :
      {F A : Type 0} (Good : A → Type 0) (wrap : F → E) (r : Result F A)
      → ((a : A) → r ≡ ok a → Good a)
      → ((e : F) → r ≡ err e → Fails (wrap e))
      → Step Good (lift_result wrap r)
  Step-lift_result Good wrap (ok a) good fails = (tt, good a refl)
  Step-lift_result Good wrap (err e) good fails = (tt, fails e refl)

  pub Step-bind :
      {A B : Type 0} (Good : A → Type 0) (Good' : B → Type 0) (t : Tool C E A) (f : A → Tool C E B)
      → Step Good t
      → ((a : A) → Good a → Step Good' (f a))
      → Step Good' (t >>= f)
  Step-bind Good Good' (ws, err e) f h k = h
  Step-bind {B = B} Good Good' (ws, ok a) f h k = prepend (f a) (k a h.1)
    where
      prepend : (t : Tool C E B) → Step Good' t → Step Good' (ws ++ t.0, t.1)
      prepend (more, ok b) (l, good) = (All-append (λ w. is_result w.1 ≡ false) ws more h.0 l, good)
      prepend (more, err e) (l, fails) =
          (All-append (λ w. is_result w.1 ≡ false) ws more h.0 l, fails)

  pub data EndsWith (Last : C → Type 0) : Tool C E (Unit {0}) → Type 0 where
    finished :
        (before : Writes C) (sink : Sink) (c : C)
        → NoResult is_result before
        → Last c
        → EndsWith Last (before ++ (sink, c) ∷ [], ok tt)
    failed : {ws : Writes C} {e : E} → NoResult is_result ws → Fails e → EndsWith Last (ws, err e)

  -- The exit of a tool: a result, written last, and success; or a message of the error, written
  -- last, no result, and failure.
  abbrev pub Leaves : (C → Type 0) → (E → C) → Exit C → Type 0
  Leaves Last message exit =
      ((c : C) × (sink : Sink) × (before : Writes C) × Last c
        × (exit.writes ≡ before ++ (sink, c) ∷ [])
        × NoResult is_result before
        × (exit.code ≡ exit_success))
      ⊎ ((e : E) × (before : Writes C) × Fails e
          × (exit.writes ≡ before ++ (Sink.standard_error, message e) ∷ [])
          × NoResult is_result before
          × (exit.code ≡ exit_failure))

  module _ (Last : C → Type 0) where
    EndsWith-prepend :
        (ws : Writes C) (t : Tool C E (Unit {0}))
        → NoResult is_result ws
        → EndsWith Last t
        → EndsWith Last (ws ++ t.0, t.1)
    EndsWith-prepend ws (_, _) h (EndsWith.finished before sink c l last) =
        subst (λ all. EndsWith Last (all, ok tt)) (append_assoc ws before ((sink, c) ∷ []))
          (EndsWith.finished (ws ++ before) sink c
            (All-append (λ w. is_result w.1 ≡ false) ws before h l) last)
    EndsWith-prepend ws (_, _) h (EndsWith.failed {ws = more} l fails) =
        EndsWith.failed (All-append (λ w. is_result w.1 ≡ false) ws more h l) fails

    pub EndsWith-bind :
        {A : Type 0} (Good : A → Type 0) (t : Tool C E A) (f : A → Tool C E (Unit {0}))
        → Step Good t
        → ((a : A) → Good a → EndsWith Last (f a))
        → EndsWith Last (t >>= f)
    EndsWith-bind Good (ws, err e) f h k = EndsWith.failed h.0 h.1
    EndsWith-bind Good (ws, ok a) f h k = EndsWith-prepend ws (f a) h.0 (k a h.1)

    pub catch_all-Leaves :
        (message : E → C) (t : Tool C E (Unit {0}))
        → EndsWith Last t
        → Leaves Last message (catch_all message t)
    catch_all-Leaves message (_, _) (EndsWith.finished before sink c h last) =
        inl (c, sink, before, last, refl, h, refl)
    catch_all-Leaves message (_, _) (EndsWith.failed {ws} {e} h fails) =
        inr (e, ws, fails, refl, h, refl)
