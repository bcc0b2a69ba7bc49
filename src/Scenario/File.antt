-- ===== src/Scenario/File.antt =====
-- `read_all_fd` and `scenario_load_from_file` of toml.c. What the system answers is an argument:
-- the results of `read` in turn, and those of `stat` and `open`.
pub mod Contents
use cm_dotfiles.Prelude.{
  ℕ, List, [], ◌∷◌, ◌++◌, Option, none, some, Bool, true, false, ◌>>=◌, leb, ltb, if◌then◌else◌,
  length, not,
}
use cm_dotfiles.Scenario.Types.{Scenario, Read, max_file_size}
use cm_dotfiles.Scenario.Lines.{parse_buffer}

-- One `read`: an interruption, another error, or the bytes that it brings, none at the end.
pub data ReadResult : Type 0 where
  interrupted failed : ReadResult
  bytes : List ℕ → ReadResult

-- What `read` brings is added, or the loop ends where it brings nothing.
unfoldable pub on_bytes : List ℕ → List ℕ → (List ℕ → Option (List ℕ)) → Option (List ℕ)
on_bytes got [] loop = some got
on_bytes got (b ∷ bs) loop = loop (got ++ b ∷ bs)

-- The loop, with the bytes that were read. `read` is asked for no more than is free.
unfoldable pub read_loop : List ℕ → List ReadResult → Option (List ℕ)
unfolding on_bytes
read_loop got [] = none
read_loop got (interrupted ∷ rs) =
    let rest = read_loop got rs in if leb max_file_size (length got) then none else rest
read_loop got (failed ∷ rs) = none
read_loop got (bytes bs ∷ rs) =
    if leb max_file_size (length got) then none else on_bytes got bs (λ more. read_loop more rs)

-- The buffer, with the NUL that is written behind the bytes, and their number.
unfoldable pub read_all_fd : Bool → List ReadResult → Option (Read ℕ)
unfolding read_loop
read_all_fd allocated rs =
    if allocated
    then (read_loop [] rs >>= λ got. some (record { buf = got ++ 0 ∷ []; result = length got }))
    else none

-- `stat` of the path: whether it is a regular file, and its size.
pub record Stat : Type 0 where
  pub is_regular : Bool
  pub size : ℕ

-- A null pointer among the arguments, standard input, or a path with the answers of `stat` and
-- `open`.
pub data Source : Type 0 where
  null_argument : Source
  standard_input : Source
  file : Option Stat → Bool → Source

-- The tests before the file is read.
unfoldable pub may_read : Source → Bool
may_read null_argument = false
may_read standard_input = true
may_read (file none opened) = false
may_read (file (some st) opened) =
    if not st.is_regular then false else if ltb max_file_size st.size then false else opened

unfoldable pub scenario_load_from_file : Source → Bool → List ReadResult → Option (Read Scenario)
unfolding may_read read_all_fd parse_buffer
scenario_load_from_file source allocated rs =
    if may_read source
    then (read_all_fd allocated rs >>= λ r. parse_buffer r.buf r.result)
    else none
