-- ===== src/Runtime/FlightRecorder/Refused.antt =====
-- What a recorder does with a report that it does not take.
use skill_centric_agent_syst.Base.{
  String, ◌≡◌, refl, Bool, true, false, ◌&&◌, Option, none, some, List, member, Bool-cases, inl,
  inr, arith,
}
use skill_centric_agent_syst.Base.Outcome.{ok, err, check}
use skill_centric_agent_syst.Base.Exec
use skill_centric_agent_syst.Runtime.Queue.{Error}
use skill_centric_agent_syst.Runtime.FlightRecorder.Desk.{
  Desk, Recorder, Report, event_types, actor_roles, stop_reasons, require_choice, require_reason,
}
use skill_centric_agent_syst.Runtime.FlightRecorder.Events.{check_report, record_event}

-- The reason is one of the code's, where there is one.
abbrev is_reason : Option String → Bool
is_reason none = true
is_reason (some reason) = member reason stop_reasons

-- The words of a report are the code's.
abbrev pub is_known : Report → Bool
is_known report =
    member report.event_type event_types
    && (member report.actor_role actor_roles && is_reason report.stop_reason)

choice_passes :
    (v : String) (allowed : List String) (name : String)
    → member v allowed ≡ true
    → require_choice v allowed name ≡ ok tt
unfolding require_choice
choice_passes v allowed name h = rw h refl

fails : (b : Bool) (e : Error) → b ≡ false → (f : Error) × (check b e ≡ err f)
fails b e h = (e, rw h refl)

choice_fails :
    (v : String) (allowed : List String) (name : String)
    → member v allowed ≡ false
    → (e : Error) × (require_choice v allowed name ≡ err e)
unfolding require_choice
choice_fails v allowed name h = fails (member v allowed) _ h

reason_fails : (o : Option String) → is_reason o ≡ false → (e : Error) × (require_reason o ≡ err e)
reason_fails none h = cc
reason_fails (some reason) h = choice_fails reason stop_reasons "stop_reason" h

module _ (r : Recorder) where
  check_report_refused :
      (report : Report) (d : Desk)
      → is_known report ≡ false
      → (e : Error) × (check_report r report d ≡ (err e, d))
  unfolding check_report Exec.◌>>=◌
  check_report_refused report d h = elim (Bool-cases (member report.event_type event_types)) [
    | inr unknown ↦
        (let (e, fail) = choice_fails report.event_type event_types "event_type" unknown in
          (e, rw fail refl))
    | inl known ↦ elim (Bool-cases (member report.actor_role actor_roles)) [
      | inr unknown ↦
          (let (e, fail) = choice_fails report.actor_role actor_roles "actor_role" unknown in
            (e, rw (choice_passes report.event_type event_types "event_type" known, fail) refl))
      | inl right ↦
          (let (e, fail) = reason_fails report.stop_reason (ground arith) in
            (
              e,
              rw
                  (
                    choice_passes report.event_type event_types "event_type" known,
                    choice_passes report.actor_role actor_roles "actor_role" right,
                    fail,
                  )
                  refl,
            ))
    ]
  ]

  -- A report with an event type, a role or a stop reason that the code does not have is refused before
  -- anything is written: no index is handed out, no file is written and the clock is not read.
  pub record_event_refused :
      (run : String) (report : Report) (d : Desk)
      → is_known report ≡ false
      → (e : Error) × (record_event r run report d ≡ (err e, d))
  unfolding record_event Exec.◌>>=◌
  record_event_refused run report d h =
      let (e, refused) = check_report_refused report d h in (e, rw refused refl)
