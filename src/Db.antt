-- ===== src/Db.antt =====
-- The database session that the services share: one list for each table.
mod Rows
pub use Rows.*
use pages_to_rgb.Prelude.{Option, List, [], ◌∷◌, ◌++◌}
use pages_to_rgb.Common.Exec.{Exec}

pub record Db : Type 0 where
  pub sessions : List Session
  pub devices : List Device
  pub gateways : List Gateway
  pub deliveries : List Delivery
  pub sequences : List Sequence
  pub sequence_events : List SequenceEvent
  pub commands : List Command
  pub command_events : List CommandEvent
  pub gateway_commands : List GatewayCommand
  pub audit : List AuditEvent
  pub captures : List Capture
  pub frames : List Frame
  pub artifacts : List ImageArtifact
  pub orphans : List StorageOrphan
  pub outbox : List WorkflowOutbox
  pub camera_profiles : List CameraProfileRevision
  pub diagnostics : List CameraDiagnostic
  pub diagnostic_frames : List CameraDiagnosticFrame
  pub questions : List Question
  pub final_answers : List FinalAnswer
  pub admin_settings : Option AdminSettings

-- `session.add(AuditEvent(…))`
abbrev pub add_audit : AuditEvent → Db → Db
add_audit e db = record db { audit = db.audit ++ e ∷ [] }
