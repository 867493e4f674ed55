-- ===== src/Manifest.antt =====
-- Kubernetes manifests as the GitOps domain edits them: domains/gitops/source_patch.py and the
-- approved changes of domains/gitops/recovery_merge.py.
pub mod Value
pub mod Path
pub mod Change
mod Samples
