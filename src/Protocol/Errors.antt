-- ===== src/Protocol/Errors.antt =====
-- The errors that end a session, one constructor for each message.
use transferly.Safety.{PathError, BeneathError}

pub data SessionError : Type 0 where
  invalid_header invalid_identifier repeated_identifier no_matching_offer : SessionError
  too_many_entries invalid_entry invalid_digest too_many_omissions invalid_reason : SessionError
  path_alias inconsistent_total unsupported_kind missing_parent file_as_parent : SessionError
  inconsistent_manifest overlapping_offers send_failed unexpected_frame : SessionError
  unknown_queued unknown_decision unknown_result : SessionError
  content_without_offer invalid_chunk repeated_outcome nonzero_start out_of_order : SessionError
  completion_without_offer invalid_completion failure_without_offer unknown_failure : SessionError
  inconsistent_batch receive_failed final_path_unsafe final_folder_failed folder_failed :
      SessionError
  unsafe_path unsafe_omission : PathError → SessionError
  escaped : BeneathError → SessionError
