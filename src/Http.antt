-- ===== src/Http.antt =====
-- What package net/http contributes to the handlers: an answer is a status code and a body. The body
-- of `http.Error` is its message; a handler that writes none leaves it empty.
pub mod Cors
pub mod Mux
use nodefall.Base.{ℕ, String}

pub record Answer : Type 0 where
  pub code : ℕ
  pub body : String

abbrev pub http_error : String → ℕ → Answer
http_error message code = record { code = code; body = message }

abbrev pub status_ok : ℕ
status_ok = 200

abbrev pub status_created : ℕ
status_created = 201

abbrev pub status_accepted : ℕ
status_accepted = 202

abbrev pub status_no_content : ℕ
status_no_content = 204

abbrev pub status_bad_request : ℕ
status_bad_request = 400

abbrev pub status_unauthorized : ℕ
status_unauthorized = 401

abbrev pub status_not_found : ℕ
status_not_found = 404

abbrev pub status_conflict : ℕ
status_conflict = 409

abbrev pub status_too_many_requests : ℕ
status_too_many_requests = 429

abbrev pub status_internal_server_error : ℕ
status_internal_server_error = 500
