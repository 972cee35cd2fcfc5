-- ===== src/Client/Hearing.antt =====
-- The handlers of client/message_receiver.cpp and the callback of ClientConnection::do_read
-- change a client by five operations only; what these keep is the hypothesis of the section.
use asynchronous_messenger.Base.{
  ℕ, String, false, not, ◌&&◌, Option, List, ◌++◌, ◌==◌, string_eq, if_cases, bind_cases,
  Option-cases, inl, inr, append, try◌catch◌,
}
use asynchronous_messenger.Json.{JsonLib, value_bool, value_string, value_time}
use asynchronous_messenger.Wire.Frames.{receive_total, split, handle_all_keeps}
use asynchronous_messenger.Client.{Client, Net, Notice, chat, typing, failure, notify}
use asynchronous_messenger.Client.Receiver.{
  is_response, on_error, on_login, on_register, handle_server_response, handle_chat_message,
  handle_typing_status, handle_server_error, handle_typed, handle_incoming_message,
}
use asynchronous_messenger.Client.Connection.{handle_error, handle_line, read_some}

abbrev pub with_buffer : {Json : Type 0} → List ℕ → Client Json → Client Json
with_buffer rest c = record c { connection = record c.connection { message_buffer = rest } }

pub record Heard {Json : Type 0} (P : Client Json → Type 0) : Type 0 where
  pub login : (c : Client Json) → P c → P (on_login c)
  pub register : (c : Client Json) → P c → P (on_register c)
  pub told : (n : Notice) (c : Client Json) → P c → P (notify n c)
  pub failed : (error : String) (c : Client Json) → P c → P (on_error error c)
  pub buffered : (rest : List ℕ) (c : Client Json) → P c → P (with_buffer rest c)

module _ {Json : Type 0} {P : Client Json → Type 0} (heard : Heard P) where
  pub error_told_keeps : (error : String) (c : Client Json) → P c → P (handle_error error c)
  unfolding handle_error
  error_told_keeps e c h =
      if_cases P c.connection.error_callback _ _ (λ _. heard.failed e c h) (λ _. h)

module _ {Json : Type 0} (lib : JsonLib Json) (net : Net) where
  module _ {P : Client Json → Type 0} (heard : Heard P) where
    response_keeps :
        (m : Json) (c : Client Json) → P c → P (try handle_server_response lib net m c catch c)
    unfolding handle_server_response
    response_keeps m c h = bind_cases P (lib.as_string m "type") _ c h λ t _.
        bind_cases P (value_bool lib m "success" false) _ c h λ ok _.
          bind_cases P (value_string lib m "message" "") _ c h λ text _.
            if_cases P (t == "login_response") _ _
              (λ _. if_cases P ok _ _ (λ _. heard.login c h) (λ _. h))
              (λ _.
                if_cases P (t == "register_response") _ _
                  (λ _. if_cases P ok _ _ (λ _. heard.register c h) (λ _. h)) (λ _. h))

    chat_keeps :
        (m : Json) (c : Client Json) → P c → P (try handle_chat_message lib net m c catch c)
    unfolding handle_chat_message
    chat_keeps m c h =
        if_cases (λ o. P (try o catch c)) (lib.contains m "from" && lib.contains m "content") _ _
          (λ _. bind_cases P (lib.as_string m "from") _ c h λ from _.
            bind_cases P (lib.as_string m "content") _ c h λ content _.
              bind_cases P (value_time lib m "timestamp" net.time) _ c h λ t _.
                bind_cases P (value_bool lib m "stored" false) _ c h
                  λ s _. heard.told (chat from content t) c h)
          (λ _. h)

    typing_keeps :
        (m : Json) (c : Client Json) → P c → P (try handle_typing_status lib net m c catch c)
    unfolding handle_typing_status
    typing_keeps m c h =
        if_cases (λ o. P (try o catch c)) (lib.contains m "from" && lib.contains m "is_typing") _ _
          (λ _. bind_cases P (lib.as_string m "from") _ c h λ from _.
            bind_cases P (lib.as_bool m "is_typing") _ c h λ b _. heard.told (typing from b) c h)
          (λ _. h)

    error_keeps :
        (m : Json) (c : Client Json) → P c → P (try handle_server_error lib net m c catch c)
    unfolding handle_server_error
    error_keeps m c h =
        bind_cases P (value_string lib m "message" "Unknown error") _ c h
          λ text _. heard.told (failure text) c h

    typed_keeps :
        (t : String) (m : Json) (c : Client Json) → P c → P (try handle_typed lib net t m c catch c)
    unfolding handle_typed
    typed_keeps t m c h =
        let Q : Option (Client Json) → Type 0 = λ o. P (try o catch c) in
        if_cases Q (is_response t) _ _ (λ _. response_keeps m c h)
          (λ _.
            if_cases Q (t == "message") _ _ (λ _. chat_keeps m c h)
              (λ _.
                if_cases Q (t == "typing") _ _ (λ _. typing_keeps m c h)
                  (λ _. if_cases Q (t == "error") _ _ (λ _. error_keeps m c h) (λ _. h))))

    pub incoming_keeps :
        (m : Json) (c : Client Json) → P c → P (handle_incoming_message lib net m c)
    unfolding handle_incoming_message
    incoming_keeps m c h =
        if_cases P (not (lib.contains m "type")) _ _ (λ _. h)
          (λ _. bind_cases P (lib.as_string m "type") _ c h λ t _. typed_keeps t m c h)

    line_keeps : (line : List ℕ) (c : Client Json) → P c → P (handle_line lib net line c)
    unfolding handle_line
    line_keeps line c h = elim (Option-cases (lib.parse line)) [
      | inl e ↦
          rw (e, handle_line)
            (error_told_keeps heard (append "JSON parse error: " net.error_text) c h)
      | inr (m, e) ↦
          rw (e, handle_line)
            (if_cases P c.connection.message_callback _ _ (λ _. incoming_keeps m c h) (λ _. h))
    ]

    -- Whatever bytes come.
    pub read_some-keeps : (chunk : List ℕ) (c : Client Json) → P c → P (read_some lib net chunk c)
    unfolding read_some
    read_some-keeps chunk c h =
        let texts = split (c.connection.message_buffer ++ chunk) in
        let done = handle_all_keeps P (handle_line lib net) line_keeps c texts.0 h in
        rw (receive_total (handle_line lib net) c.connection.message_buffer chunk c, read_some)
          (if_cases P c.connection.receiving _ _ (λ _. heard.buffered texts.1 _ done) (λ _. h))
