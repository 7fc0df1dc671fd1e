-- ===== src/Tunnel/Server/Control/Accept.antt =====
-- Which connections become clients.
use void_link_tunnels.Base.{
  ℕ, ◌≡◌, ◌↔◌, refl, ◌∙◌, ap, sym, Bool, true, Option, none, some, List, [], ◌∷◌, ◌++◌, Bytes,
  codes, is_some, nat_eq, bytes_eq, bytes_beq, bytes_beq_iff, Bool-cases, Option-cases, inl, inr,
  arith,
}
use void_link_tunnels.Base.Map.{load, range_first, range_first_sound, range_first-ne-none}
use void_link_tunnels.Text.{trim_space, fields, is_space}
use void_link_tunnels.Text.Words.{IsWord, fields-word, fields-trim_space, fields-nil}
use void_link_tunnels.Tunnel.Server.{Server}
use void_link_tunnels.Tunnel.Server.Data.{handle_data_conn, deliver, find_pending, pending_channel}
use void_link_tunnels.Tunnel.Server.Control.{
  JwtParse, validate_jwt, is_registered, done, serving, handle_control_conn, data_line, auth_line,
  first_line, handle_new_conn,
}

is_registered_iff :
    (id : Bytes) (s : Server)
    → (is_registered id s ≡ true) ↔ ((name : Bytes) × (load name s.subdomain_map ≡ some id))
unfolding is_registered
is_registered_iff id s = (to, from)
  where
    test : Bytes → Bool
    test v = bytes_beq v id

    to :
        is_some (range_first test s.subdomain_map) ≡ true
        → (name : Bytes) × (load name s.subdomain_map ≡ some id)
    to h = elim (Option-cases (range_first test s.subdomain_map)) [
      | inl n ↦ absurd (ground arith)
      | inr (v, found) ↦
          let (name, here, same) = range_first_sound test s.subdomain_map v found in
          (name, here ∙ ap some ((bytes_beq_iff v id).0 same))
    ]

    from :
        (name : Bytes) × (load name s.subdomain_map ≡ some id)
        → is_some (range_first test s.subdomain_map) ≡ true
    from (name, here) = elim (Option-cases (range_first test s.subdomain_map)) [
      | inl n ↦
          absurd
            (range_first-ne-none test s.subdomain_map name id here ((bytes_beq_iff id id).1 refl) n)
      | inr (v, found) ↦ ap is_some found
    ]

-- The line that a desktop client sends.
abbrev pub auth_message : Bytes → Bytes → Bytes
auth_message token id = codes "AUTH" ++ (32 ∷ (token ++ (32 ∷ (id ++ (10 ∷ [])))))

auth-IsWord : IsWord (codes "AUTH")
unfolding is_space
auth-IsWord = record { solid = (refl, (refl, (refl, (refl, tt)))); some_byte = cc }

fields-auth_message :
    (token id : Bytes)
    → IsWord token
    → IsWord id
    → fields (auth_message token id) ≡ codes "AUTH" ∷ token ∷ id ∷ []
unfolding is_space
fields-auth_message token id ht hi =
    fields-word (codes "AUTH") _ 32 auth-IsWord refl
    ∙ ap (λ ws. codes "AUTH" ∷ ws)
        (fields-word token _ 32 ht refl
          ∙ ap (λ ws. token ∷ ws) (fields-word id [] 10 hi refl ∙ ap (λ ws. id ∷ ws) fields-nil))

module _ (jwt_parse : JwtParse) (conn : ℕ) where
  -- The handler of an authenticated channel serves the client exactly if the token is valid and
  -- some subdomain is registered for the tunnel. Who the token was issued to plays no part.
  pub handle_control_conn_iff :
      (token id : Bytes) (s : Server)
      → ((handle_control_conn jwt_parse conn token id s).0 ≡ serving s.next_ref) ↔ (
          (validate_jwt jwt_parse token s ≡ true)
          × ((name : Bytes) × (load name s.subdomain_map ≡ some id)))
  unfolding handle_control_conn
  handle_control_conn_iff token id s =
      let (to, from) = is_registered_iff id s in
      elim (Bool-cases (validate_jwt jwt_parse token s)) [
        | inl valid ↦ elim (Bool-cases (is_registered id s)) [
          | inl known ↦ ((λ e. (valid, to known)), λ e. rw (valid, known))
          | inr unknown ↦ ((λ e. absurd (ground arith)), λ e. absurd (ground (arith, from e.1)))
        ]
        | inr invalid ↦ ((λ e. absurd (ground arith)), λ e. absurd (ground arith))
      ]

  serving_ref :
      (token id : Bytes) (s : Server) (ref : ℕ)
      → (handle_control_conn jwt_parse conn token id s).0 ≡ serving ref
      → ref ≡ s.next_ref
  unfolding handle_control_conn
  serving_ref token id s ref h = ground arith

  refused_state :
      (token id : Bytes) (s : Server)
      → (handle_control_conn jwt_parse conn token id s).0 ≡ done
      → (handle_control_conn jwt_parse conn token id s).1 ≡ s
  unfolding handle_control_conn
  refused_state token id s h = ground arith

  data_line-done : (args : List Bytes) (s : Server) → (data_line conn args s).0 ≡ done
  unfolding data_line
  data_line-done [] s = refl
  data_line-done (conn_id ∷ _) s = refl

  deliver-clients : (ch : Option ℕ) (s : Server) → (deliver conn ch s).0.clients ≡ s.clients
  unfolding deliver
  deliver-clients none s = refl
  deliver-clients (some ch) s = ground arith

  data_line-clients :
      (args : List Bytes) (s : Server) → (data_line conn args s).1.clients ≡ s.clients
  unfolding data_line handle_data_conn
  data_line-clients [] s = refl
  data_line-clients (conn_id ∷ _) s = elim (Option-cases (find_pending conn_id s)) [
    | inl n ↦ rw (n, handle_data_conn)
    | inr (ref, found) ↦
        rw (found, handle_data_conn) (deliver-clients (pending_channel conn_id ref s) s)
  ]

  -- What a first line must have been for its connection to be served.
  pub record IsAuth (line : Option Bytes) (s : Server) : Type 0 where
    pub text : Bytes
    pub token : Bytes
    pub tunnel_id : Bytes
    pub more : List Bytes
    pub name : Bytes
    pub read : line ≡ some text
    pub words : fields text ≡ codes "AUTH" ∷ token ∷ tunnel_id ∷ more
    pub valid : validate_jwt jwt_parse token s ≡ true
    pub registered : load name s.subdomain_map ≡ some tunnel_id

  first_line-serving :
      (text : Bytes) (words : List Bytes) (s : Server) (ref : ℕ)
      → fields text ≡ words
      → (first_line jwt_parse conn words s).0 ≡ serving ref
      → IsAuth (some text) s
  unfolding first_line auth_line
  first_line-serving text [] s ref e h = absurd (cc)
  first_line-serving text (command ∷ []) s ref e h = absurd (ground (arith, data_line-done [] s))
  first_line-serving text (command ∷ a ∷ []) s ref e h =
      absurd (ground (arith, data_line-done (a ∷ []) s))
  first_line-serving text (command ∷ token ∷ id ∷ more) s ref e h =
      elim (Bool-cases (bytes_beq command (codes "AUTH"))) [
        | inl auth ↦
            let served : (handle_control_conn jwt_parse conn token id s).0 ≡ serving ref =
              ground arith in
            let (valid, (name, here)) =
              (handle_control_conn_iff token id s).0
                (served ∙ ap serving (serving_ref token id s ref served)) in
            record {
              text = text;
              token = token;
              tunnel_id = id;
              more = more;
              name = name;
              read = refl;
              words =
                  e
                  ∙ ap (λ c. c ∷ token ∷ id ∷ more) ((bytes_beq_iff command (codes "AUTH")).0 auth);
              valid = valid;
              registered = here;
            }
        | inr other ↦ absurd (ground (arith, data_line-done (token ∷ id ∷ more) s))
      ]

  -- A connection is served only if its first line could be read and its words are AUTH, a token
  -- that is valid, and the id of a tunnel that some subdomain is registered for.
  pub handle_new_conn-IsAuth :
      (line : Option Bytes) (s : Server) (ref : ℕ)
      → (handle_new_conn jwt_parse conn line s).0 ≡ serving ref
      → IsAuth line s
  unfolding handle_new_conn
  handle_new_conn-IsAuth none s ref h = absurd (cc)
  handle_new_conn-IsAuth (some text) s ref h =
      first_line-serving text (fields (trim_space text)) s ref (sym (fields-trim_space text)) h

  first_line-clients :
      (words : List Bytes) (s : Server)
      → (first_line jwt_parse conn words s).0 ≡ done
      → (first_line jwt_parse conn words s).1.clients ≡ s.clients
  unfolding first_line auth_line
  first_line-clients [] s h = refl
  first_line-clients (c ∷ []) s h = ground (arith, data_line-clients [] s)
  first_line-clients (c ∷ a ∷ []) s h = ground (arith, data_line-clients (a ∷ []) s)
  first_line-clients (c ∷ a ∷ b ∷ more) s h =
      ground (arith, data_line-clients (a ∷ b ∷ more) s, refused_state a b s)

  -- A connection that is not served leaves the connected clients as they were, whatever it sent.
  pub handle_new_conn-clients :
      (line : Option Bytes) (s : Server)
      → (handle_new_conn jwt_parse conn line s).0 ≡ done
      → (handle_new_conn jwt_parse conn line s).1.clients ≡ s.clients
  unfolding handle_new_conn
  handle_new_conn-clients none s h = refl
  handle_new_conn-clients (some text) s h = first_line-clients (fields (trim_space text)) s h

  -- A client that sends AUTH with a valid token and the id of a registered tunnel is served.
  pub handle_new_conn-auth_message :
      (token id name : Bytes) (s : Server)
      → IsWord token
      → IsWord id
      → validate_jwt jwt_parse token s ≡ true
      → load name s.subdomain_map ≡ some id
      → (handle_new_conn jwt_parse conn (some (auth_message token id)) s).0 ≡ serving s.next_ref
  unfolding handle_new_conn first_line auth_line bytes_beq
  handle_new_conn-auth_message token id name s ht hi valid here =
      rw (fields-trim_space (auth_message token id) ∙ fields-auth_message token id ht hi)
        ((handle_control_conn_iff token id s).1 (valid, (name, here)))
