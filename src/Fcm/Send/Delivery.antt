-- ===== src/Fcm/Send/Delivery.antt =====
-- What a push message leaves at curl and at the service (src/fcmsender.cpp), where curl is as
-- documented.
use zway_server.Base.{
  ℕ, ◌+◌, ◌-◌, ◌*◌, ◌<◌, ◌≡◌, refl, ◌∙◌, ap, String, true, false, List, [], ◌∷◌, ◌++◌, some, arith,
  length, Bool-cases, inl, inr,
}
use zway_server.Fcm.{message_body, transfer, transfer_lem}
use zway_server.Fcm.Send.{Easy, CurlApi, fcm_url, headed, options, with_handle, send_message}

-- A message as the other side receives it.
pub record Received : Type 0 where
  pub url : String
  pub header : List String
  pub body : List ℕ

-- What curl documents: its handles and the strings of its lists are given back by the calls that
-- release them, and a post that returns CURLE_OK has sent the header and all that the callback for
-- reading gave. Appending does not run out of memory.
pub record Documented {C : Type 0} (curl : CurlApi C) : Type 0 where
  pub handles : C → ℕ
  pub strings : C → ℕ
  pub received : C → List Received
  pub size : C → ℕ
  pub nmemb : C → ℕ
  pub size_lem : (c : C) → 0 < size c * nmemb c
  pub init_lem :
      (c : C)
      → (curl.easy_init c).0 ≡ true
      → (handles (curl.easy_init c).1 ≡ handles c + 1)
        × (strings (curl.easy_init c).1 ≡ strings c)
        × (received (curl.easy_init c).1 ≡ received c)
  pub no_init_lem : (c : C) → (curl.easy_init c).0 ≡ false → (curl.easy_init c).1 ≡ c
  pub cleanup_lem :
      (c : C)
      → (handles (curl.easy_cleanup c) ≡ handles c - 1)
        × (strings (curl.easy_cleanup c) ≡ strings c)
        × (received (curl.easy_cleanup c) ≡ received c)
  pub append_lem :
      (l : List String) (s : String) (c : C)
      → ((curl.slist_append l s c).0 ≡ l ++ s ∷ [])
        × (handles (curl.slist_append l s c).1 ≡ handles c)
        × (strings (curl.slist_append l s c).1 ≡ strings c + 1)
        × (received (curl.slist_append l s c).1 ≡ received c)
  pub free_lem :
      (l : List String) (c : C)
      → (handles (curl.slist_free_all l c) ≡ handles c)
        × (strings (curl.slist_free_all l c) ≡ strings c - length l)
        × (received (curl.slist_free_all l c) ≡ received c)
  pub perform_lem :
      (o : Easy) (c : C)
      → (handles (curl.perform o c).1 ≡ handles c) × (strings (curl.perform o c).1 ≡ strings c)
  pub posted_lem :
      (o : Easy) (c : C) (f : ℕ) (body : List ℕ)
      → (curl.perform o c).0 ≡ true
      → o.post ≡ true
      → transfer o.read_function f (size c) (nmemb c) o.read_data ≡ some body
      → received (curl.perform o c).1
        ≡ record { url = o.url; header = o.http_header; body = body } ∷ received c

module _ {C : Type 0} (curl : CurlApi C) (laws : Documented curl) (authorization : String) where
  abbrev three : List String
  three = "Transfer-Encoding: chunked" ∷ "Content-Type: application/json" ∷ authorization ∷ []

  headed_lem :
      (c : C)
      → ((headed curl authorization c).0 ≡ three)
        × (laws.handles (headed curl authorization c).1 ≡ laws.handles c)
        × (laws.strings (headed curl authorization c).1 ≡ laws.strings c + 3)
        × (laws.received (headed curl authorization c).1 ≡ laws.received c)
  unfolding headed
  headed_lem c =
      let first = curl.slist_append [] "Transfer-Encoding: chunked" c in
      let second = curl.slist_append first.0 "Content-Type: application/json" first.1 in
      let a = laws.append_lem [] "Transfer-Encoding: chunked" c in
      let b = laws.append_lem first.0 "Content-Type: application/json" first.1 in
      let d = laws.append_lem second.0 authorization second.1 in
      (
        d.0
            ∙ ap (λ l. l ++ authorization ∷ [])
                (b.0 ∙ ap (λ l. l ++ "Content-Type: application/json" ∷ []) a.0),
        d.1 ∙ b.1 ∙ a.1,
        d.2 ∙ ap (λ n. n + 1) (b.2 ∙ ap (λ n. n + 1) a.2) ∙ omega arith,
        d.3 ∙ b.3 ∙ a.3,
      )

  -- Sending with a handle gives one handle back, and keeps the count of the strings.
  used :
      (token : List ℕ) (type n : ℕ) (c : C)
      → (laws.handles (with_handle curl authorization true token type n c).1 ≡ laws.handles c - 1)
        × (laws.strings (with_handle curl authorization true token type n c).1 ≡ laws.strings c)
  unfolding with_handle
  used token type n c =
      let h = headed curl authorization c in
      let head = headed_lem c in
      let sent = curl.perform (options h.0 (message_body token type n)) h.1 in
      let kept = laws.perform_lem (options h.0 (message_body token type n)) h.1 in
      let free = laws.free_lem h.0 sent.1 in
      let end = laws.cleanup_lem (curl.slist_free_all h.0 sent.1) in
      (
        end.0 ∙ ap (λ k. k - 1) (free.0 ∙ kept.0 ∙ head.1),
        end.1
            ∙ free.1
            ∙ ap (λ l. laws.strings sent.1 - length l) head.0
            ∙ ap (λ k. k - 3) (kept.1 ∙ head.2)
            ∙ omega arith,
      )

  posted :
      (token : List ℕ) (type n : ℕ) (c : C)
      → (with_handle curl authorization true token type n c).0 ≡ true
      → laws.received (with_handle curl authorization true token type n c).1
        ≡ record { url = fcm_url; header = three; body = message_body token type n }
          ∷ laws.received c
  unfolding with_handle options
  posted token type n c ok =
      let h = headed curl authorization c in
      let head = headed_lem c in
      let text = message_body token type n in
      let easy = options h.0 text in
      let sent = curl.perform easy h.1 in
      let there = laws.posted_lem easy h.1 (length text + 1) text ok refl (
        transfer_lem (laws.size h.1) (laws.nmemb h.1) (length text + 1) text (laws.size_lem h.1)
          (omega arith)) in
      (laws.cleanup_lem (curl.slist_free_all h.0 sent.1)).2
      ∙ (laws.free_lem h.0 sent.1).2
      ∙ there
      ∙ rw (head.0, head.3) refl

  -- Whether a push message is sent or not, curl's handles and the strings of its lists are as many
  -- after as before, where curl is as documented.
  pub send_message_releases :
      (token : List ℕ) (type n : ℕ) (c : C)
      → (laws.handles (send_message curl authorization token type n c).1 ≡ laws.handles c)
        × (laws.strings (send_message curl authorization token type n c).1 ≡ laws.strings c)
  unfolding send_message with_handle headed
  send_message_releases token type n c = elim (Bool-cases (curl.easy_init c).0) [
    | inl got ↦
        let u = used token type n (curl.easy_init c).1 in
        let i = laws.init_lem c got in rw got (u.0 ∙ ap (λ k. k - 1) i.0 ∙ omega arith, u.1 ∙ i.1)
    | inr not ↦ rw (not, laws.no_init_lem c not) (refl, refl)
  ]

  -- Where sendMessage returns true, and curl is as documented, the service has received one message
  -- more: at the service's address, with the three lines of the header, and with exactly the text
  -- that was built for the token, the type and the number.
  pub send_message_delivers :
      (token : List ℕ) (type n : ℕ) (c : C)
      → (send_message curl authorization token type n c).0 ≡ true
      → laws.received (send_message curl authorization token type n c).1
        ≡ record {
          url = fcm_url;
          header =
              "Transfer-Encoding: chunked" ∷ "Content-Type: application/json" ∷ authorization ∷ [];
          body = message_body token type n;
        }
          ∷ laws.received c
  unfolding send_message with_handle headed options
  send_message_delivers token type n c sent = elim (Bool-cases (curl.easy_init c).0) [
    | inl got ↦ rw got (
        posted token type n (curl.easy_init c).1 (rw got at sent)
        ∙ ap (λ l. record { url = fcm_url; header = three; body = message_body token type n } ∷ l)
            (laws.init_lem c got).2)
    | inr not ↦ absurd (ground (arith, rw not at sent))
  ]
