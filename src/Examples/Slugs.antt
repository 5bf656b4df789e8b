-- ===== src/Examples/Slugs.antt =====
-- Identifiers that `slug_id` of runtime/models.py makes, and texts of numbers.
use skill_centric_agent_syst.Base.{◌≡◌, refl}
use skill_centric_agent_syst.Runtime.Models.Slug.{slug_id, decimal}

slug_of_task : slug_id (λ s. s) "queue" "task_1: first  run!" ≡ "queue-task-1-first-run"
unfolding slug_id
slug_of_task = refl

text_of_number : decimal 1207 ≡ "1207"
unfolding decimal
text_of_number = refl
