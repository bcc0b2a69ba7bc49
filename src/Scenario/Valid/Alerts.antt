-- ===== src/Scenario/Valid/Alerts.antt =====
-- The handlers of toml.c for the defaults and for an alert keep a scenario well-formed.
use cm_dotfiles.Prelude.{ℕ, ◌+◌, ◌≤◌, ◌<◌, refl, Option, List, arith, ◌==◌, codes, length}
use cm_dotfiles.Prelude.Ensures.{Ensures, fails, Ensures-bind, Ensures-if}
use cm_dotfiles.Scenario.Text.{string_at, str_eq_nocase}
use cm_dotfiles.Scenario.Number.Bounds.{parse_uint64-lt, parse_uint32-lt}
use cm_dotfiles.Scenario.Types.{Scenario, AlertSpec, Read}
use cm_dotfiles.Scenario.Values.Strings.{ReadsString}
use cm_dotfiles.Scenario.Handlers.{
  done, with_string, handle_kv_alert_defaults, alert_at, put_alert, handle_kv_alert,
}
use cm_dotfiles.Scenario.Valid.{AlertIsValid, IsValid, IsValid-alert}
use cm_dotfiles.Scenario.Valid.Handlers.{Handles, unchanged, string_value, array_value, stored}

module _ (buf : List ℕ) (start end : ℕ) (sc : Scenario) (le : start ≤ end)
    (inside : end < length buf) (v : IsValid buf start sc) where
  pub handle_kv_alert_defaults-Handles :
      (key : ℕ) → Ensures (Handles start end buf sc) (handle_kv_alert_defaults buf key start end sc)
  unfolding handle_kv_alert_defaults
  handle_kv_alert_defaults-Handles key =
      let k = string_at buf key in
      Ensures-if (str_eq_nocase k (codes "level"))
        (λ _. string_value buf start end sc le inside v _ (λ r w u.
          stored buf start end sc le inside v r _ w
            (record {
              labels = u.labels;
              slots = u.slots;
              bound = u.bound;
              app = u.app;
              has_level = omega arith;
              defaults = u.defaults;
              alerts = u.alerts;
            })
            refl))
        (λ _.
          Ensures-if (str_eq_nocase k (codes "labels"))
            (λ _. array_value buf start end sc le inside v _ (λ r first n fit alerts u. (
              record {
                labels = u.labels;
                slots = u.slots;
                bound = u.bound;
                app = u.app;
                has_level = u.has_level;
                defaults = fit;
                alerts = u.alerts;
              },
              alerts,
            )))
            (λ _. unchanged buf start end sc le inside v))

  module _ (cur : ℕ) (there : cur < sc.alert_count) where
    -- A field of the alert is set.
    sets :
        (r : Read ℕ) (x : AlertSpec)
        → ReadsString start end buf r
        → IsValid r.buf (end + 1) sc
        → AlertIsValid r.buf (end + 1) sc.label_count x
        → Ensures (Handles start end buf sc) (done r.buf (put_alert sc cur x))
    sets r x w u a =
        stored buf start end sc le inside v r (put_alert sc cur x) w (IsValid-alert cur there a u)
          refl

    field :
        (next : List ℕ → ℕ → Option (Read Scenario))
        → ((r : Read ℕ)
            → ReadsString start end buf r
            → IsValid r.buf (end + 1) sc
            → AlertIsValid r.buf (end + 1) sc.label_count (alert_at sc cur)
            → Ensures (Handles start end buf sc) (next r.buf r.result))
        → Ensures (Handles start end buf sc) (with_string buf start end next)
    field next k =
        string_value buf start end sc le inside v next (λ r w u. k r w u (u.alerts cur there))

    pub handle_kv_alert-Handles :
        (key : ℕ) → Ensures (Handles start end buf sc) (handle_kv_alert buf key start end sc cur)
    unfolding handle_kv_alert
    handle_kv_alert-Handles key =
        let k = string_at buf key in
        Ensures-if (str_eq_nocase k (codes "title"))
          (λ _. field _ (λ r w u a. sets r _ w u (record {
            title = w.ends;
            body = a.body;
            labels = a.labels;
            positive = a.positive;
            count = a.count;
            period = a.period;
            has_at = a.has_at;
            at = a.at;
          })))
          (λ _.
            Ensures-if (str_eq_nocase k (codes "body"))
              (λ _. field _ (λ r w u a. sets r _ w u (record {
                title = a.title;
                body = w.ends;
                labels = a.labels;
                positive = a.positive;
                count = a.count;
                period = a.period;
                has_at = a.has_at;
                at = a.at;
              })))
              (λ _.
                Ensures-if (str_eq_nocase k (codes "level"))
                  (λ _. field _ (λ r w u a. sets r _ w u (record {
                    title = a.title;
                    body = a.body;
                    labels = a.labels;
                    positive = a.positive;
                    count = a.count;
                    period = a.period;
                    has_at = a.has_at;
                    at = a.at;
                  })))
                  (λ _.
                    Ensures-if (str_eq_nocase k (codes "labels"))
                      (λ _. array_value buf start end sc le inside v _ (λ r first n fit alerts u.
                        let a = u.alerts cur (omega (arith, alerts)) in
                        (
                          IsValid-alert cur (omega (arith, alerts))
                              (record {
                                title = a.title;
                                body = a.body;
                                labels = fit;
                                positive = a.positive;
                                count = a.count;
                                period = a.period;
                                has_at = a.has_at;
                                at = a.at;
                              })
                              u,
                          alerts,
                        )))
                      (λ _.
                        Ensures-if (str_eq_nocase k (codes "count"))
                          (λ _. field _ (λ r w u a.
                            Ensures-bind (parse_uint32-lt (string_at r.buf r.result)) (λ n lt.
                              Ensures-if (n == 0) (λ _. fails)
                                (λ ne. sets r _ w u (record {
                                  title = a.title;
                                  body = a.body;
                                  labels = a.labels;
                                  positive = ground arith;
                                  count = lt;
                                  period = a.period;
                                  has_at = a.has_at;
                                  at = a.at;
                                })))))
                          (λ _.
                            Ensures-if (str_eq_nocase k (codes "period_ms"))
                              (λ _. field _ (λ r w u a.
                                Ensures-bind (parse_uint32-lt (string_at r.buf r.result)) (λ n lt.
                                  sets r _ w u (record {
                                    title = a.title;
                                    body = a.body;
                                    labels = a.labels;
                                    positive = a.positive;
                                    count = a.count;
                                    period = lt;
                                    has_at = a.has_at;
                                    at = a.at;
                                  }))))
                              (λ _.
                                Ensures-if (str_eq_nocase k (codes "at_ms"))
                                  (λ _. field _ (λ r w u a.
                                    Ensures-bind (parse_uint64-lt (string_at r.buf r.result))
                                      (λ n lt. sets r _ w u (record {
                                        title = a.title;
                                        body = a.body;
                                        labels = a.labels;
                                        positive = a.positive;
                                        count = a.count;
                                        period = a.period;
                                        has_at = omega arith;
                                        at = lt;
                                      }))))
                                  (λ _. unchanged buf start end sc le inside v)))))))
