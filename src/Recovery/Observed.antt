-- ===== src/Recovery/Observed.antt =====
-- What one evidence window shows of a recovery target, as `observed_after` of
-- domains/rca/recovery_verification.py reads it, and the values it is held against. A text that
-- is missing is empty; the floats and their operations are Python's and stand in `Floats`.
use k8s_ops.Prelude.{ℕ, String, Bool, false, Option, none, List, ◌≡◌, true}

-- Python's floats, of which the checks use the order and three operations.
pub record Floats : Type 1 where
  pub F : Type 0
  pub zero : F
  pub one : F
  pub le : F → F → Bool
  pub lt : F → F → Bool
  pub mul : F → F → F
  pub abs_diff : F → F → F
  pub le_refl : (x : F) → le x x ≡ true
  pub le_trans : (x y z : F) → le x y ≡ true → le y z ≡ true → le x z ≡ true

-- `deployment_replicas` of a snapshot
pub record Deployment : Type 0 where
  pub generation : Option ℕ
  pub observed_generation : Option ℕ
  pub desired_replicas : Option ℕ
  pub ready_replicas : Option ℕ
  pub updated_replicas : Option ℕ
  pub available_replicas : Option ℕ
  pub unavailable_replicas : Option ℕ
  pub unavailable_replicas_omitted : Bool

-- `mapping(None)`: no field is there
abbrev pub no_deployment : Deployment
no_deployment = record {
  generation = none;
  observed_generation = none;
  desired_replicas = none;
  ready_replicas = none;
  updated_replicas = none;
  available_replicas = none;
  unavailable_replicas = none;
  unavailable_replicas_omitted = false;
}

-- The identity and the counters of a protected workload.
pub record Workload : Type 0 where
  pub name : String
  pub kind : String
  pub namespace : String
  pub uid : String
  pub pod_uids : List String
  pub pod_start_times : List String
  pub restart_count : ℕ

-- One series of the active-session gauge; `value` is absent where it is no finite float.
pub record Session (F : Type 0) : Type 0 where
  pub namespace : String
  pub kind : String
  pub name : String
  pub continuity_id : String
  pub pod_uid : String
  pub value : Option F

pub record Target : Type 0 where
  pub cluster_id : String
  pub namespace : String
  pub resource_kind : String
  pub resource_name : String

pub record Observed (F : Type 0) : Type 0 where
  pub failure_ratio : Option F
  pub request_rate : Option F
  pub deployment : Option Deployment
  pub protected_workloads : Option (List (Workload × Bool))
  pub protected_active_sessions : Option (List (Session F))

pub record Expected (F : Type 0) : Type 0 where
  pub failure_ratio_max : Option F
  pub request_rate_baseline : Option F
  pub request_rate_tolerance_ratio : Option F
  pub replicas : Option ℕ
  pub protected_workloads : Option ℕ
