-- ===== src/Fcm/Send.antt =====
-- FcmSender::startup, cleanup and sendMessage (src/fcmsender.cpp), over curl, which is a parameter.
-- The key of the server is one, too.
pub mod Delivery
use zway_server.Base.{
  ℕ, ◌+◌, ◌-◌, ◌*◌, ◌<◌, ◌≡◌, refl, ◌∙◌, ap, String, Bool, true, false, List, [], ◌∷◌, ◌++◌, some,
  arith, length, Bool-cases, inl, inr,
}
use zway_server.Fcm.{
  WriteThis, ReadFunction, message_body, read_callback, write_callback, transfer, transfer_lem,
  holding,
}

-- The options of an easy handle.
pub record Easy : Type 0 where
  pub url : String
  pub post : Bool
  pub http_header : List String
  pub read_data : WriteThis
  pub read_function : ReadFunction
  pub write_function : ℕ → ℕ → ℕ

-- The functions of curl over its state; no header is a null pointer. `easy_init` tells whether it
-- gives a handle, `perform` whether it returns CURLE_OK.
pub record CurlApi (C : Type 0) : Type 0 where
  pub global_init : C → C
  pub global_cleanup : C → C
  pub easy_init : C → Bool × C
  pub easy_cleanup : C → C
  pub slist_append : List String → String → C → List String × C
  pub slist_free_all : List String → C → C
  pub perform : Easy → C → Bool × C

abbrev pub fcm_url : String
fcm_url = "https://fcm.googleapis.com/fcm/send"

-- The options that sendMessage sets.
unfoldable pub options : List String → List ℕ → Easy
options header text = record {
  url = fcm_url;
  post = true;
  http_header = header;
  read_data = holding text;
  read_function = read_callback;
  write_function = write_callback;
}

module _ {C : Type 0} (curl : CurlApi C) (authorization : String) where
  unfoldable pub startup : C → C
  startup c = curl.global_init c

  unfoldable pub cleanup : C → C
  cleanup c = curl.global_cleanup c

  -- The three lines of the header.
  unfoldable pub headed : C → List String × C
  headed c =
      let (one, c1) = curl.slist_append [] "Transfer-Encoding: chunked" c in
      let (two, c2) = curl.slist_append one "Content-Type: application/json" c1 in
      curl.slist_append two authorization c2

  with_handle : Bool → List ℕ → ℕ → ℕ → C → Bool × C
  unfolding headed options message_body
  with_handle false token type num_elements c = (false, c)
  with_handle true token type num_elements c =
      let (header, c1) = headed c in
      let (ret, c2) = curl.perform (options header (message_body token type num_elements)) c1 in
      (ret, curl.easy_cleanup (curl.slist_free_all header c2))

  unfoldable pub send_message : List ℕ → ℕ → ℕ → C → Bool × C
  unfolding with_handle
  send_message token type num_elements c =
      let (handle, c1) = curl.easy_init c in with_handle handle token type num_elements c1
