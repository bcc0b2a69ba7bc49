-- ===== src/Scenario/Valid/Handlers.antt =====
-- The handlers of toml.c keep a scenario well-formed.
use cm_dotfiles.Prelude.{ℕ, ◌+◌, ◌≤◌, ◌<◌, ◌≡◌, refl, ap, Option, List, arith, codes, length}
use cm_dotfiles.Prelude.Ensures.{Ensures, gives, Ensures-bind, Ensures-if}
use cm_dotfiles.Scenario.Text.{string_at, str_eq_nocase}
use cm_dotfiles.Scenario.Number.Bounds.{parse_uint64-lt}
use cm_dotfiles.Scenario.Types.{Scenario, Read}
use cm_dotfiles.Scenario.Values.Strings.{ReadsString, value-reads}
use cm_dotfiles.Scenario.Values.Arrays.{parse_string_array-reads}
use cm_dotfiles.Scenario.Handlers.{done, with_string, with_array, handle_kv_app}
use cm_dotfiles.Scenario.Frame.{Keeps, Keeps-refl}
use cm_dotfiles.Scenario.Valid.{IsValid, IsValid-moves, IsValid-labels, IsValid-app}

-- What a handler of a value between `lo` and `hi` leaves.
pub record Handles (lo hi : ℕ) (buf : List ℕ) (sc : Scenario) (r : Read Scenario) : Type 0 where
  pub keeps : Keeps lo (hi + 1) buf r.buf
  pub valid : IsValid r.buf (hi + 1) r.result
  pub alerts : r.result.alert_count ≡ sc.alert_count

module _ (buf : List ℕ) (start end : ℕ) (sc : Scenario) (le : start ≤ end)
    (inside : end < length buf) (v : IsValid buf start sc) where
  pub unchanged : Ensures (Handles start end buf sc) (done buf sc)
  unchanged = gives (record {
    keeps = Keeps-refl start (end + 1) buf;
    valid = IsValid-moves (end + 1) (omega arith) (omega arith) (Keeps-refl start start buf) v;
    alerts = refl;
  })

  pub string_value :
      (next : List ℕ → ℕ → Option (Read Scenario))
      → ((r : Read ℕ)
          → ReadsString start end buf r
          → IsValid r.buf (end + 1) sc
          → Ensures (Handles start end buf sc) (next r.buf r.result))
      → Ensures (Handles start end buf sc) (with_string buf start end next)
  string_value next k =
      Ensures-bind (value-reads buf start end le inside)
        (λ r w. k r w (IsValid-moves (end + 1) (omega arith) (omega arith) w.keeps v))

  pub array_value :
      (next : Scenario → ℕ → ℕ → Scenario)
      → ((r : Read Scenario) (first n : ℕ)
          → first + n ≤ r.result.label_count
          → r.result.alert_count ≡ sc.alert_count
          → IsValid r.buf (end + 1) r.result
          → IsValid r.buf (end + 1) (next r.result first n)
            × ((next r.result first n).alert_count ≡ sc.alert_count))
      → Ensures (Handles start end buf sc) (with_array buf start end sc next)
  array_value next k =
      Ensures-bind (parse_string_array-reads buf sc start end le inside v.labels) (λ r w.
        let valid : IsValid r.0.buf (end + 1) r.0.result =
          IsValid-labels (end + 1) (omega arith) (omega arith) w.keeps w.same
            (omega (arith, w.first, w.counted)) w.valid v in
        let alerts : r.0.result.alert_count ≡ sc.alert_count =
          ap (λ (x : Scenario). x.alert_count) w.same in
        let next_valid = k r.0 r.1 r.2 (omega (arith, w.counted)) alerts valid in
        gives (record { keeps = w.keeps; valid = next_valid.0; alerts = next_valid.1 }))

  -- The string is stored in the scenario, which stays valid.
  pub stored :
      (r : Read ℕ) (sc' : Scenario)
      → ReadsString start end buf r
      → IsValid r.buf (end + 1) sc'
      → sc'.alert_count ≡ sc.alert_count
      → Ensures (Handles start end buf sc) (done r.buf sc')
  stored r sc' w valid alerts = gives (record { keeps = w.keeps; valid = valid; alerts = alerts })

  pub handle_kv_app-Handles :
      (key : ℕ) → Ensures (Handles start end buf sc) (handle_kv_app buf key start end sc)
  unfolding handle_kv_app
  handle_kv_app-Handles key =
      let k = string_at buf key in
      Ensures-if (str_eq_nocase k (codes "handle"))
        (λ _. string_value _ (λ r w u.
          Ensures-bind (parse_uint64-lt (string_at r.buf r.result)) (λ n lt.
            stored r _ w
              (IsValid-app
                (record {
                  name = u.app.name;
                  host_name = u.app.host_name;
                  handle = lt;
                  labels = u.app.labels;
                })
                u)
              refl)))
        (λ _.
          Ensures-if (str_eq_nocase k (codes "name"))
            (λ _. string_value _ (λ r w u.
              stored r _ w
                (IsValid-app
                  (record {
                    name = w.ends;
                    host_name = u.app.host_name;
                    handle = u.app.handle;
                    labels = u.app.labels;
                  })
                  u)
                refl))
            (λ _.
              Ensures-if (str_eq_nocase k (codes "host_name"))
                (λ _. string_value _ (λ r w u.
                  stored r _ w
                    (IsValid-app
                      (record {
                        name = u.app.name;
                        host_name = w.ends;
                        handle = u.app.handle;
                        labels = u.app.labels;
                      })
                      u)
                    refl))
                (λ _.
                  Ensures-if (str_eq_nocase k (codes "status"))
                    (λ _. string_value _ (λ r w u.
                      stored r _ w
                        (IsValid-app
                          (record {
                            name = u.app.name;
                            host_name = u.app.host_name;
                            handle = u.app.handle;
                            labels = u.app.labels;
                          })
                          u)
                        refl))
                    (λ _.
                      Ensures-if (str_eq_nocase k (codes "labels"))
                        (λ _. array_value _ (λ r first n fit alerts u. (
                          IsValid-app
                              (record {
                                name = u.app.name;
                                host_name = u.app.host_name;
                                handle = u.app.handle;
                                labels = fit;
                              })
                              u,
                          alerts,
                        )))
                        (λ _. unchanged)))))
