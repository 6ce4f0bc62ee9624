-- ===== src/Filter/Answers.antt =====
-- The answers to an exception: src/shared/infrastructure/filters/all-exceptions.filter.ts.
use api_padrao.Prelude.{
  ℕ, Text, Bool, true, false, ◌&&◌, ◌||◌, Option, none, some, List, [], ◌∷◌, ◌++◌, ◌≡◌, refl, ◌∙◌,
  leb, if◌then◌else◌, select_where, count_where, inl, inr, Bool-cases,
}
use api_padrao.Filter.Problem.{Exception, status_of, text_raises}
use api_padrao.Filter.Reply.{
  Method, absent, present, AdapterResponse, Host, Event, replied, emergency, critical_log,
  set_content_type, answer_by, first_method, try_emergency_reply, crash, reply, respond,
  log_and_respond, handle, catch,
}

abbrev pub is_answer : Event → Bool
is_answer (replied problem status) = true
is_answer (emergency text) = true
is_answer _ = false

-- what the client of the request is sent
unfoldable pub sent : List Event → List Event
unfolding select_where
sent events = select_where is_answer events

abbrev pub is_fine : Option Text → Bool
is_fine none = true
is_fine (some text) = false

-- the exception has a text, and the response can be reached by its ordinary path
abbrev pub replies : Exception → Host → Bool
replies e host =
    is_fine host.path_raises
    && is_fine (text_raises e)
    && is_fine (set_content_type host.response)
    && is_fine host.reply_raises

-- the first method that is there, and does not raise
abbrev pub works_first : List Method → Bool
works_first [] = false
works_first (absent ∷ methods) = works_first methods
works_first (present raised ∷ methods) = is_fine raised

abbrev pub replies_in_emergency : Option AdapterResponse → Bool
replies_in_emergency none = false
replies_in_emergency (some r) = works_first (r.code ∷ r.status ∷ r.send ∷ [])

pub sent-log :
    (host : Host) (e : Exception) (events : List Event)
    → sent (critical_log host e ++ events) ≡ sent events
unfolding sent critical_log
sent-log host e events = elim (Bool-cases (leb 500 (status_of e))) [
  | inl severe ↦ rw severe refl
  | inr mild ↦ rw mild refl
]

count-log :
    (host : Host) (e : Exception) (events : List Event)
    → count_where is_answer (critical_log host e ++ events) ≡ count_where is_answer events
unfolding count_where critical_log
count-log host e events = elim (Bool-cases (leb 500 (status_of e))) [
  | inl severe ↦ rw severe refl
  | inr mild ↦ rw mild refl
]

abbrev once_if : Bool → ℕ
once_if b = if b then 1 else 0

count-answer_by :
    (text : Text) (raised : Option Text)
    → count_where is_answer (answer_by text raised) ≡ once_if (is_fine raised)
unfolding count_where
count-answer_by text none = refl
count-answer_by text (some error) = refl

count-first_method :
    (text : Text) (code status send : Method)
    → count_where is_answer (first_method text code status send)
      ≡ once_if (works_first (code ∷ status ∷ send ∷ []))
unfolding count_where
count-first_method text (present raised) status send = count-answer_by text raised
count-first_method text absent (present raised) send = count-answer_by text raised
count-first_method text absent absent (present raised) = count-answer_by text raised
count-first_method text absent absent absent = refl

count-crash :
    (host : Host) (text : Text) (response : Option AdapterResponse)
    → count_where is_answer (try_emergency_reply response text)
      ≡ once_if (replies_in_emergency response)
unfolding count_where try_emergency_reply
count-crash host text none = refl
count-crash host text (some r) = count-first_method text r.code r.status r.send

module _ (now : ℕ) (e : Exception) (host : Host) where
  count-reply :
      (raised : Option Text)
      → count_where is_answer (reply now e host raised)
        ≡ once_if (is_fine raised || replies_in_emergency host.response)
  unfolding count_where reply crash try_emergency_reply
  count-reply none = refl
  count-reply (some text) = count-crash host text host.response

  count-respond :
      (raised : Option Text)
      → count_where is_answer (respond now e host raised)
        ≡ once_if
            ((is_fine raised && is_fine host.reply_raises) || replies_in_emergency host.response)
  unfolding count_where crash try_emergency_reply respond reply
  count-respond none = count-reply host.reply_raises
  count-respond (some text) = count-crash host text host.response

  count-log_and_respond :
      (raised : Option Text)
      → count_where is_answer (log_and_respond now e host raised)
        ≡ once_if (
            (is_fine raised
              && is_fine (set_content_type host.response)
              && is_fine host.reply_raises)
            || replies_in_emergency host.response)
  unfolding count_where crash try_emergency_reply log_and_respond critical_log
  count-log_and_respond none =
      count-log host e (respond now e host (set_content_type host.response))
      ∙ count-respond (set_content_type host.response)
  count-log_and_respond (some text) = count-crash host text host.response

  count-handle :
      (raised : Option Text)
      → count_where is_answer (handle now e host raised)
        ≡ once_if (
            (is_fine raised
              && is_fine (text_raises e)
              && is_fine (set_content_type host.response)
              && is_fine host.reply_raises)
            || replies_in_emergency host.response)
  unfolding count_where crash try_emergency_reply handle
  count-handle none = count-log_and_respond (text_raises e)
  count-handle (some text) = count-crash host text host.response

  -- An exception is answered once, whatever it is, where its answer or the emergency answer can be
  -- sent, and is not answered otherwise; it is never answered twice.
  pub catch-answers :
      count_where is_answer (catch now e host)
      ≡ once_if (replies e host || replies_in_emergency host.response)
  unfolding catch
  catch-answers = count-handle host.path_raises
