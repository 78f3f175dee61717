-- ===== src/MachineTraffic/Policy.antt =====
-- The data of the meter.
use yz_agent.Prelude.{ℕ, String, Bool, List}

pub record Policy : Type 0 where
  pub limit : ℕ
  pub mode : String
  pub reset_day : ℕ
  pub timezone : String
  pub interfaces : List String
  pub revision : ℕ
  pub epoch : ℕ
  pub period_start : ℕ
  pub period_end : ℕ
  pub rx : ℕ
  pub tx : ℕ
  pub proxy_rx : ℕ
  pub proxy_tx : ℕ
  pub baseline : ℕ
  pub sequence : ℕ
  pub initialized : Bool
  pub active : Bool

pub record Sample : Type 0 where
  pub revision : ℕ
  pub mode : String
  pub epoch : ℕ
  pub period_start : ℕ
  pub sequence : ℕ
  pub rx : ℕ
  pub tx : ℕ
  pub initialized : Bool
  pub error : String
  pub interfaces : List String

pub record Counter : Type 0 where
  pub identity : String
  pub rx : ℕ
  pub tx : ℕ

pub record Reading : Type 0 where
  pub boot : String
  pub counters : List (String × Counter)

pub record DiskState : Type 0 where
  pub version : ℕ
  pub policy : Policy
  pub sample : Sample
  pub previous : Reading

pub record Meter : Type 0 where
  pub state : DiskState
  pub loaded : Bool
  pub lost : Bool
  pub write_failed : Bool
  pub confirmed_at : ℕ
