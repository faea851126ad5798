-- ===== src/Autonomy.antt =====
-- The autonomy modes (src/autonomy).
pub mod Mode
pub mod Counter
pub mod Logic
pub mod Service
pub mod Owner
pub mod Rules
pub mod Changes
pub mod Approved
pub mod Requests
