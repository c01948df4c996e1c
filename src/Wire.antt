-- ===== src/Wire.antt =====
-- The messages of proto/ahand/v1/envelope.proto that the daemon's managers exchange.
use a_hand.Base.{ℕ, Bool, List}
use a_hand.Base.Text.{Text}
use a_hand.Base.Map.{Map}

pub data SessionMode : Type 0 where
  inactive strict trust auto_accept : SessionMode

pub record JobRequest : Type 0 where
  pub job_id : Text
  pub tool : Text
  pub args : List Text
  pub cwd : Text
  pub env : Map Text Text
  pub timeout_ms : ℕ
  pub interactive : Bool

pub record RefusalContext : Type 0 where
  pub tool : Text
  pub reason : Text
  pub refused_at_ms : ℕ

pub record ApprovalRequest : Type 0 where
  pub job_id : Text
  pub tool : Text
  pub args : List Text
  pub cwd : Text
  pub reason : Text
  pub detected_domains : List Text
  pub expires_ms : ℕ
  pub caller_uid : Text
  pub previous_refusals : List RefusalContext

pub record ApprovalResponse : Type 0 where
  pub job_id : Text
  pub approved : Bool
  pub remember : Bool
  pub reason : Text

pub record SessionState : Type 0 where
  pub caller_uid : Text
  pub mode : SessionMode
  pub trust_expires_ms : ℕ
  pub trust_timeout_mins : ℕ

pub record PolicyState : Type 0 where
  pub allowed_tools : List Text
  pub denied_tools : List Text
  pub denied_paths : List Text
  pub allowed_domains : List Text
  pub approval_timeout_secs : ℕ

pub record PolicyUpdate : Type 0 where
  pub add_allowed_tools : List Text
  pub remove_allowed_tools : List Text
  pub add_denied_tools : List Text
  pub remove_denied_tools : List Text
  pub add_allowed_domains : List Text
  pub remove_allowed_domains : List Text
  pub add_denied_paths : List Text
  pub remove_denied_paths : List Text
  pub approval_timeout_secs : ℕ
