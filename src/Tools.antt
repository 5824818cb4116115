-- ===== src/Tools.antt =====
-- The command-line tools: tools/mctomir and tools/llvm-bleach. A tool writes and fails: `Tool` has what
-- is written, in order, and the value or the exception. `main` catches every exception, writes its
-- message to the standard error stream, and returns `EXIT_FAILURE`.
pub mod Ends
pub mod Mctomir
pub mod Bleach
use llvm_bleach.Base.{
  ℕ, String, List, [], ◌∷◌, ◌++◌, Option, none, some, Result, ok, err, Bool, if◌then◌else◌,
}

-- Where something is written: a stream of the process, or a file.
pub data Sink : Type 0 where
  standard_output standard_error : Sink
  file : String → Sink

abbrev pub Writes : Type 0 → Type 0
Writes C = List (Sink × C)

abbrev pub Tool : Type 0 → Type 0 → Type 0 → Type 0
Tool C E A = Writes C × Result E A

infixl 5 ◌>>=◌
abbrev pub ◌>>=◌ : {C E A B : Type 0} → Tool C E A → (A → Tool C E B) → Tool C E B
(ws, err e) >>= next = (ws, err e)
(ws, ok x) >>= next = let (more, r) = next x in (ws ++ more, r)

module _ {C E : Type 0} where
  abbrev pub done : Tool C E (Unit {0})
  done = ([], ok tt)

  abbrev pub write : Sink → C → Tool C E (Unit {0})
  write sink content = ((sink, content) ∷ [], ok tt)

  abbrev pub throw : {A : Type 0} → E → Tool C E A
  throw e = ([], err e)

-- A result of the library; its error is one of the tool.
abbrev pub lift_result : {C E F A : Type 0} → (E → F) → Result E A → Tool C F A
lift_result wrap (ok a) = ([], ok a)
lift_result wrap (err e) = ([], err (wrap e))

abbrev pub stdout_or_file : Bool → String → Sink
stdout_or_file is_stdout name = if is_stdout then Sink.standard_output else Sink.file name

-- What a tool leaves: the writes, and the exit code.
pub record Exit (C : Type 0) : Type 0 where
  pub writes : Writes C
  pub code : ℕ

abbrev pub exit_success : ℕ
exit_success = 0

abbrev pub exit_failure : ℕ
exit_failure = 1

-- `catch (std::exception &e)`, with the text of the message.
abbrev pub catch_all : {C E A : Type 0} → (E → C) → Tool C E A → Exit C
catch_all message (ws, ok a) = record { writes = ws; code = exit_success }
catch_all message (ws, err e) = record {
  writes = ws ++ (Sink.standard_error, message e) ∷ [];
  code = exit_failure;
}
