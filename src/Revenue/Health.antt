-- ===== src/Revenue/Health.antt =====
-- The state of Stripe and its alerts (platform/src/revenue/stripe-health.service.ts). What the call of
-- Stripe and the page of its status give, the clock and the address of the alerts are parameters.
use evo_platform.Base.{
  Bool, String, ◌<>◌, Option, none, some, List, [], ◌∷◌, if◌then◌else◌, ◌==◌, string_eq,
}

pub data HealthState : Type 0 where
  reachable : HealthState
  stripe_down : HealthState
  network_down : HealthState
  unconfigured : HealthState

unfoldable pub text_of : HealthState → String
text_of HealthState.reachable = "ok"
text_of HealthState.stripe_down = "stripe_down"
text_of HealthState.network_down = "network_down"
text_of HealthState.unconfigured = "unconfigured"

pub record StripeHealth : Type 0 where
  pub state : HealthState
  pub stripe_status_indicator : Option String
  pub stripe_status_url : String
  pub checked_at : String
  pub detail : String

-- What a check meets: `api_error` is the message of a failed call of Stripe, cut at 200 characters, and
-- none when the call succeeds; `indicator` is none when the page of the status gives no answer.
pub record Weather : Type 0 where
  pub configured : Bool
  pub checked_at : String
  pub api_error : Option String
  pub indicator : Option String

abbrev stripe_status_page : String
stripe_status_page = "https://status.stripe.com/"

abbrev health : HealthState → Option String → String → String → StripeHealth
health state indicator checked_at detail = record {
  state = state;
  stripe_status_indicator = indicator;
  stripe_status_url = stripe_status_page;
  checked_at = checked_at;
  detail = detail;
}

abbrev probe_failed : String → String → Option String → StripeHealth
probe_failed checked_at error (some indicator) =
    health HealthState.stripe_down (some indicator) checked_at (
      "Stripe API unreachable but status.stripe.com responds — the problem is on Stripe's side (indicator: "
      <> (indicator <> ("). API error: " <> error)))
probe_failed checked_at error none =
    health HealthState.network_down none checked_at
      "Neither the Stripe API nor status.stripe.com is reachable — the problem is most likely on our side (network/DNS/egress), not Stripe."

unfoldable pub probe : String → Option String → Option String → StripeHealth
probe checked_at none indicator =
    health HealthState.reachable none checked_at "Stripe API reachable."
probe checked_at (some error) indicator = probe_failed checked_at error indicator

pub record Alert : Type 0 where
  pub to : String
  pub subject : String
  pub text : String

abbrev subject_of : HealthState → String
subject_of HealthState.reachable = "[resolved] Stripe connectivity restored"
subject_of HealthState.stripe_down = "[URGENT] Stripe connectivity lost (stripe_down)"
subject_of HealthState.network_down = "[URGENT] Stripe connectivity lost (network_down)"
subject_of HealthState.unconfigured = "[URGENT] Stripe connectivity lost (unconfigured)"

abbrev closing : HealthState → String
closing HealthState.reachable = "Normal service. Figures refresh on next load."
closing _ =
    "Billing checkout and revenue figures are affected until this clears. Cached revenue figures remain visible, marked with their fetch time."

abbrev text : HealthState → StripeHealth → String
text prev h =
    h.detail
    <> ("\n\nState: "
        <> (text_of prev
            <> (" -> "
                <> (text_of h.state
                    <> ("\nChecked: "
                        <> (h.checked_at
                            <> ("\nStripe status page: "
                                <> (stripe_status_page <> ("\n\n" <> closing h.state)))))))))

-- `config.alerts.email` is none when it is empty.
abbrev alert_to : Option String → HealthState → StripeHealth → List Alert
alert_to none prev h = []
alert_to (some email) prev h =
    record { to = email; subject = subject_of h.state; text = text prev h } ∷ []

unfoldable pub announce_transition : Option String → Option HealthState → StripeHealth → List Alert
unfolding text_of
announce_transition email none h = []
announce_transition email (some prev) h =
    if text_of prev == text_of h.state then [] else alert_to email prev h

pub record Checked : Type 0 where
  pub health : StripeHealth
  pub last_state : Option HealthState
  pub alerts : List Alert

-- `check`, from the state that the last check saw.
unfoldable pub check : Option String → Weather → Option HealthState → Checked
unfolding probe announce_transition
check email w last =
    let h =
      if w.configured
      then probe w.checked_at w.api_error w.indicator
      else health HealthState.unconfigured none w.checked_at "STRIPE_SECRET_KEY is not set." in
    record { health = h; last_state = some h.state; alerts = announce_transition email last h }
