-- ===== src/Scenario/Valid/Result.antt =====
-- What `parse_buffer` and `scenario_load_from_file` of toml.c return.
use cm_dotfiles.Prelude.{
  ℕ, ◌+◌, ◌≤◌, ◌<◌, ◌≡◌, sym, ◌∙◌, Bool, Option, none, some, List, [], ◌∷◌, ◌++◌, arith, leb,
  length, length-append, length-replicate,
}
use mathlib.Core.Path.{subst}
use cm_dotfiles.Prelude.Ensures.{
  Ensures, fails, gives, Ensures-bind, Ensures-if, Ensures-map, Ensures-some,
}
use cm_dotfiles.Scenario.Types.{Scenario, Read, zero_alert, max_alerts, max_labels, max_file_size}
use cm_dotfiles.Scenario.Lines.{initial, parse_buffer}
use cm_dotfiles.Scenario.File.{
  ReadResult, interrupted, failed, bytes, on_bytes, read_loop, read_all_fd, Source, may_read,
  scenario_load_from_file,
}
use cm_dotfiles.Scenario.Valid.{IsValid}
use cm_dotfiles.Scenario.Valid.Header.{StateIsValid}
use cm_dotfiles.Scenario.Valid.Lines.{line_loop-ReadsLine}

pub initial-valid : (buf : List ℕ) (limit : ℕ) → StateIsValid buf limit initial
initial-valid buf limit = record {
  scenario = record {
    labels = record {
      slots = length-replicate {A = Option ℕ} max_labels none;
      bound = omega arith;
      each = λ i h. absurd (omega arith);
    };
    slots = length-replicate max_alerts zero_alert;
    bound = omega arith;
    app = record { name = tt; host_name = tt; handle = omega arith; labels = omega arith };
    has_level = omega arith;
    defaults = omega arith;
    alerts = λ i h. absurd (omega arith);
  };
  current = tt;
}

-- The buffer keeps its length, and the scenario is valid in it.
pub record Parsed (len : ℕ) (r : Read Scenario) : Type 0 where
  pub size : length r.buf ≡ len + 1
  pub valid : IsValid r.buf (len + 1) r.result

parse_buffer-ensures :
    (buf : List ℕ) (len : ℕ) → length buf ≡ len + 1 → Ensures (Parsed len) (parse_buffer buf len)
unfolding parse_buffer
parse_buffer-ensures buf len size =
    Ensures-bind
      (line_loop-ReadsLine (len + 1) len 0 0 buf initial (omega arith) (omega arith) size
        (initial-valid buf 0))
      (λ r x. gives (record { size = x.keeps.size ∙ size; valid = x.valid.scenario }))

-- If parse_buffer takes a buffer of len bytes and one more, the buffer keeps its length, and the
-- scenario is well-formed in it: at most 256 labels and 64 alerts; each string that it points to
-- starts inside the buffer and ends with a NUL inside it; each label up to the count is such a
-- string; the ranges of labels of the application, of the defaults and of every alert lie within
-- the labels read; each alert has a count from 1 to 2 ^ 32 - 1, and its other numbers fit their
-- types.
pub parse_buffer-Parsed :
    (buf : List ℕ) (len : ℕ)
    → length buf ≡ len + 1
    → (r : Read Scenario) → parse_buffer buf len ≡ some r
    → Parsed len r
parse_buffer-Parsed buf len size r e = Ensures-some (parse_buffer-ensures buf len size) r e

on_bytes-ensures :
    (P : List ℕ → Type 0) (got bs : List ℕ) (loop : List ℕ → Option (List ℕ))
    → P got
    → ((more : List ℕ) → Ensures P (loop more))
    → Ensures P (on_bytes got bs loop)
unfolding on_bytes
on_bytes-ensures P got [] loop p ih = gives p
on_bytes-ensures P got (b ∷ bs) loop p ih = ih (got ++ b ∷ bs)

abbrev Small : List ℕ → Type 0
Small got = length got < max_file_size

read_loop-Small : (got : List ℕ) (rs : List ReadResult) → Ensures Small (read_loop got rs)
unfolding read_loop
read_loop-Small got [] = fails
read_loop-Small got (interrupted ∷ rs) =
    Ensures-if (leb max_file_size (length got)) (λ _. fails) (λ _. read_loop-Small got rs)
read_loop-Small got (failed ∷ rs) = fails
read_loop-Small got (bytes bs ∷ rs) =
    Ensures-if (leb max_file_size (length got)) (λ _. fails)
      (λ room. on_bytes-ensures Small got bs _ (ground arith) (λ more. read_loop-Small more rs))

read_all_fd-ensures :
    (allocated : Bool) (rs : List ReadResult)
    → Ensures
        (λ r. (length r.buf ≡ r.result + 1) × (r.result < max_file_size))
        (read_all_fd allocated rs)
unfolding read_all_fd
read_all_fd-ensures allocated rs =
    Ensures-if allocated
      (λ _.
        Ensures-bind (read_loop-Small [] rs)
          (λ got small. gives (omega (arith, length-append got (0 ∷ [])), small)))
      (λ _. fails)

-- The whole load: the buffer is smaller than the limit and holds the scenario.
pub record Loaded (r : Read Scenario) : Type 0 where
  pub size : length r.buf ≤ max_file_size
  pub valid : IsValid r.buf (length r.buf) r.result

-- Whatever stat, open and the reads answer, the buffer that scenario_load_from_file returns, with
-- its NUL, is at most 65536 bytes, and the scenario with it is well-formed in it: at most 256
-- labels and 64 alerts; each string that it points to starts and ends with a NUL inside the
-- buffer; each label up to the count is such a string; the ranges of labels of the application, of
-- the defaults and of every alert lie within the labels read; each alert has a count from 1 to
-- 2 ^ 32 - 1, and the other numbers fit their types.
pub scenario_load_from_file-Loaded :
    (source : Source) (allocated : Bool) (rs : List ReadResult) (r : Read Scenario)
    → scenario_load_from_file source allocated rs ≡ some r
    → Loaded r
scenario_load_from_file-Loaded source allocated rs r e = Ensures-some ensured r e
  where
    ensured : Ensures Loaded (scenario_load_from_file source allocated rs)
    ensured =
        unfold scenario_load_from_file in
        Ensures-if (may_read source)
          (λ _. Ensures-bind (read_all_fd-ensures allocated rs) (λ b h.
            Ensures-map
              (λ x p. record {
                size = omega (arith, p.size);
                valid = subst (λ n. IsValid x.buf n x.result) (sym p.size) p.valid;
              })
              (parse_buffer-ensures b.buf b.result h.0)))
          (λ _. fails)
