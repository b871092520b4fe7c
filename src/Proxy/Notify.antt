-- ===== src/Proxy/Notify.antt =====
-- internal/escalation/notify.go: the notification of a new escalation. Its delivery is best-effort
-- input and output, and only its target and its payload are modelled.
use truebearing.Base.{ℤ, pos, eqb_ℤ, String, not, [], ◌∷◌, ◌==◌, if◌then◌else◌}
use truebearing.Go.{Runtime, text}
use truebearing.Store.Rows.{Escalation}

pub record NotifyConfig : Type 0 where
  pub webhook_url : String
  pub admin_port : ℤ

pub record NotifyPayload : Type 0 where
  pub event : String
  pub escalation_id : String
  pub session_id : String
  pub tool : String
  pub reason : String
  pub approve_cmd : String
  pub reject_cmd : String
  pub approve_url : String
  pub reject_url : String

pub data Target : Type 0 where
  webhook : String → Target
  stdout : Target

-- The URL of an admin action, where the admin server runs.
abbrev admin_url : Runtime → ℤ → String → String → String
admin_url rt port id action =
    if not (eqb_ℤ port (pos 0))
    then text
        ("http://localhost:" ∷ rt.show_int port ∷ "/admin/escalations/" ∷ id ∷ "/" ∷ action ∷ [])
    else ""

unfoldable pub notify : Runtime → Escalation → String → NotifyConfig → Target × NotifyPayload
notify rt esc reason cfg = (
  (if not (cfg.webhook_url == "") then webhook cfg.webhook_url else stdout),
  record {
    event = "escalation.created";
    escalation_id = esc.id;
    session_id = esc.session_id;
    tool = esc.tool_name;
    reason = reason;
    approve_cmd = text ("truebearing escalation approve " ∷ esc.id ∷ []);
    reject_cmd = text ("truebearing escalation reject " ∷ esc.id ∷ " --reason \"...\"" ∷ []);
    approve_url = admin_url rt cfg.admin_port esc.id "approve";
    reject_url = admin_url rt cfg.admin_port esc.id "reject";
  },
)
