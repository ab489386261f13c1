-- ===== src/Events/Track/Detect.antt =====
-- What one look at a file records.
use backd.Base.{
  ℕ, Bool, true, false, List, [], ◌∷◌, ◌++◌, ◌≡◌, ◌≢◌, refl, sym, ap, ◌∙◌, inl, inr, arith, ◌==◌,
  ==_iff, if◌then◌else◌, Bool-cases, Bytes,
}
use backd.Events.{
  Stat, zero_stat, Event, event_delete, event_fail, FileErr, file_ok, LstatReply, found, enoent,
  eacces, other_errno, World, System, cmp_stat,
}
use backd.Events.Compare.{cmp_stat_lem, cmp_stat-eq-zero}
use backd.Events.Track.{
  Detected, nothing, new_event, failed, push_event, target_event_detect, file_stat, file_result,
  judge,
}

-- The mask and the `struct stat` of an event that records the answer of lstat(2), after `previous`.
abbrev pub reply_mask : LstatReply → Event → ℕ
reply_mask (found sb) previous = cmp_stat sb previous.st
reply_mask eacces previous = event_fail
reply_mask enoent previous = event_delete
reply_mask other_errno previous = event_delete

abbrev pub reply_stat : LstatReply → Stat
reply_stat (found sb) = sb
reply_stat _ = zero_stat

-- What a look at `path` does to the events: nothing, exactly if the file is as `previous` says; or
-- one event is added at the end, or lost where the system grants no memory.
pub data Looks (sys : System) (w : World) (path : Bytes) (previous : Event) (events : List Event)
    : List Event → Detected → Type 0 where
  unchanged :
      sys.lstat w.calls path ≡ found previous.st → Looks sys w path previous events events nothing
  recorded :
      {e : Event}
      → sys.lstat w.calls path ≢ found previous.st
      → e.mask ≡ reply_mask (sys.lstat w.calls path) previous
      → e.mask ≢ 0
      → e.st ≡ reply_stat (sys.lstat w.calls path)
      → e.path ≡ path
      → e.at ≡ sys.get_timestamp w.calls
      → sys.grants (w.calls ++ path ∷ []) ≡ true
      → Looks sys w path previous events (events ++ e ∷ []) new_event
  lost :
      sys.lstat w.calls path ≢ found previous.st
      → sys.grants (w.calls ++ path ∷ []) ≡ false
      → Looks sys w path previous events events failed

module _ (sys : System) (w : World) (path : Bytes) (previous : Event) (events : List Event) where
  -- A recorded event, kept or lost.
  keep_or_lose :
      (e : Event) (granted : Bool)
      → sys.grants (w.calls ++ path ∷ []) ≡ granted
      → sys.lstat w.calls path ≢ found previous.st
      → e.mask ≡ reply_mask (sys.lstat w.calls path) previous
      → e.mask ≢ 0
      → e.st ≡ reply_stat (sys.lstat w.calls path)
      → e.path ≡ path
      → e.at ≡ sys.get_timestamp w.calls
      → Looks sys w path previous events
          (push_event granted events e).1
          (if (push_event granted events e).0 then new_event else failed)
  keep_or_lose e true g ne m nz s p t = recorded ne m nz s p t g
  keep_or_lose e false g ne m nz s p t = lost ne g

  abbrev event_of : LstatReply → ℕ → Event
  event_of r mask = record {
    mask = mask;
    path = path;
    at = sys.get_timestamp w.calls;
    st = reply_stat r;
  }

  -- The event that an answer gives rise to, where it does.
  made :
      (r : LstatReply)
      → sys.lstat w.calls path ≡ r
      → r ≢ found previous.st
      → reply_mask r previous ≢ 0
      → Looks sys w path previous events
          (push_event
            (sys.grants (w.calls ++ path ∷ []))
            events
            (event_of r (reply_mask r previous))).1
          (if (push_event
              (sys.grants (w.calls ++ path ∷ []))
              events
              (event_of r (reply_mask r previous))).0
            then new_event
            else failed)
  made r e ne nz =
      keep_or_lose (event_of r (reply_mask r previous)) _ refl (rw e ne)
        (ap (λ a. reply_mask a previous) (sym e)) nz (ap reply_stat (sym e)) refl refl

  -- The world after the call of lstat(2).
  abbrev after_call : World
  after_call = (file_stat sys w path).0

  abbrev judged : FileErr × Stat → World × List Event × Detected
  judged r = judge sys after_call events path previous (sys.get_timestamp w.calls) r.0 r.1

  judged-Looks :
      (r : LstatReply)
      → sys.lstat w.calls path ≡ r
      → Looks sys w path previous events
          (judged (file_result sys r)).1
          (judged (file_result sys r)).2
  unfolding judge file_stat
  judged-Looks (found sb) e = elim (Bool-cases (cmp_stat sb previous.st == 0)) [
    | inl same ↦ rw same (unchanged (e ∙ ap found (agrees same)))
    | inr other ↦ rw other (
        made (found sb) e (λ h. absurd (ground (arith, other, cmp_stat_lem sb previous.st)))
          (λ h. absurd (ground (arith, other))))
  ]
    where
      agrees : (cmp_stat sb previous.st == 0) ≡ true → sb ≡ previous.st
      agrees same = (cmp_stat-eq-zero sb previous.st).0 ((==_iff _ _).0 same)
  judged-Looks enoent e = made enoent e (λ h. cc) (λ h. absurd (omega arith))
  judged-Looks eacces e = made eacces e (λ h. cc) (λ h. absurd (omega arith))
  judged-Looks other_errno e = made other_errno e (λ h. cc) (λ h. absurd (omega arith))

  -- One look at a file, for every answer of lstat(2): nothing happens exactly if the file is as the
  -- previous event says; otherwise one event, with the mask for that answer, is added at the end, or
  -- lost where no memory is granted.
  pub detect-Looks :
      Looks sys w path previous events
        (target_event_detect sys w events path previous).1
        (target_event_detect sys w events path previous).2
  unfolding target_event_detect
  detect-Looks = judged-Looks (sys.lstat w.calls path) refl

  judge_world :
      (w' : World) (at : ℕ) (err : FileErr) (sb : Stat)
      → let r = judge sys w' events path previous at err sb in
        (r.0.calls ≡ w'.calls) × (r.0.messages ≡ w'.messages) × (r.0.cur_path ≡ w'.cur_path)
  unfolding judge
  judge_world w' at file_ok sb = ground arith
  judge_world w' at _ sb = (refl, refl, refl)

  -- A look is one call of lstat(2), and writes no message.
  pub detect_world :
      let r = target_event_detect sys w events path previous in
      (r.0.calls ≡ w.calls ++ path ∷ []) × (r.0.messages ≡ w.messages) × (r.0.cur_path ≡ w.cur_path)
  unfolding target_event_detect
  detect_world =
      judge_world after_call (sys.get_timestamp w.calls)
        (file_result sys (sys.lstat w.calls path)).0 (file_result sys (sys.lstat w.calls path)).1
