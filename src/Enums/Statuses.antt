-- ===== src/Enums/Statuses.antt =====
-- The tests of a ProcessingStatus of backend/app/models/enums.py.
use support_flow.Prelude.{◌≡◌, refl, true}
use support_flow.Enums.{ProcessingStatus, is_completed}

pub completed_status :
    (s : ProcessingStatus) → is_completed s ≡ true → s ≡ ProcessingStatus.completed
completed_status ProcessingStatus.pending h = cc
completed_status ProcessingStatus.processing h = cc
completed_status ProcessingStatus.completed h = refl
completed_status ProcessingStatus.failed h = cc
