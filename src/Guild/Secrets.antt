-- ===== src/Guild/Secrets.antt =====
-- What src/discode/bot/session_config_service.py stores of an override, and what it shows of a
-- secret.
use mathlib.Core.Path.{subst}
use discode.Base.{
  All, All-delete_where, All-upsert, Bool-cases, List, Option, Option-cases, [], any, arith, false,
  inl, inr, length, none, not, or_text, refl, some, true, update_where, ◌++◌, ◌==◌, ◌∷◌, ◌≡◌, ◌≤◌,
}
use discode.Data.{Ident, Session, Text, get_session}
use discode.Text.{is_empty, is_space, starts_with}
use discode.Create.Saga.{get_tool}
use discode.Guild.Auth.{Member, is_guild_admin_authorized}
use discode.Guild.Config.{
  Configs, Key, Libraries, SessionConfig, all_chars, clear_all_session_config,
  clear_session_config_key, config_row, dash, get_session_config, is_config_of, is_secret, is_valid,
  key_code, may_clear, set_authorized, set_session_config, set_values, shown_of, store,
  tool_supports_key, upsert_config, validate_api_key, validate_base_url, validate_model,
}

-- A key and what is stored of it: of an API key only a ciphertext, which decrypts to an API key that
-- is not empty and not too long; of another key only its value.
abbrev pub SealedAs : (Text → Option Text) → Key → Option Text → Option Text → Type 0
SealedAs decrypt Key.api_key none (some ct) =
    (v : Text) × (decrypt ct ≡ some v) × (is_empty v ≡ false) × (length v ≤ 1024)
SealedAs decrypt Key.base_url (some v) none = is_empty v ≡ false
SealedAs decrypt Key.model (some v) none =
    (starts_with v dash ≡ false)
    × (all_chars (λ c. not (is_space c)) v ≡ true)
    × (is_empty v ≡ false)
SealedAs decrypt key value ct = ⊥

abbrev pub IsSealed : (Text → Option Text) → SessionConfig → Type 0
IsSealed decrypt r = SealedAs decrypt r.key r.value r.value_ciphertext

abbrev pub AreSealed : (Text → Option Text) → Configs → Type 0
AreSealed decrypt s = All (IsSealed decrypt) s.session_config

secret_code : (k : Key) → is_secret k ≡ (key_code k == 0)
secret_code Key.api_key = refl
secret_code Key.base_url = refl
secret_code Key.model = refl

key_code_sound : (k key : Key) → (key_code k == key_code key) ≡ true → key ≡ k
key_code_sound Key.api_key Key.api_key e = refl
key_code_sound Key.base_url Key.base_url e = refl
key_code_sound Key.model Key.model e = refl
key_code_sound k key e = cc

upsert_config-AreSealed :
    (decrypt : Text → Option Text) (sid : Ident) (key : Key) (value ct : Option Text) (s : Configs)
    → SealedAs decrypt key value ct
    → AreSealed decrypt s
    → AreSealed decrypt (upsert_config sid key value ct s)
upsert_config-AreSealed decrypt sid key value ct s sealed h =
    All-upsert (IsSealed decrypt) (is_config_of sid key) (config_row sid key value ct)
      (set_values value ct) s.session_config sealed
      (λ r e k.
        subst (λ x. SealedAs decrypt x value ct) (key_code_sound r.key key (ground (arith, e)))
          sealed)
      h

-- the documented behaviour of Fernet: what it encrypts, the same secret decrypts
abbrev pub IsDecrypted : (Text → Option Text) → Libraries → Type 0
IsDecrypted decrypt lib = (v ct : Text) → lib.encrypt v ≡ some ct → decrypt ct ≡ some v

module _ (decrypt : Text → Option Text) (lib : Libraries) (dec : IsDecrypted decrypt lib)
    (sid : Ident) where
  store-AreSealed :
      (key : Key) (v : Text) (s : Configs)
      → is_valid lib key v ≡ true
      → AreSealed decrypt s
      → AreSealed decrypt (store lib sid key v s).0
  unfolding is_valid validate_model validate_base_url validate_api_key
  store-AreSealed Key.api_key v s valid h = elim (Option-cases (lib.encrypt v)) [
    | inl e ↦ rw e h
    | inr (ct, e) ↦ rw e (
        upsert_config-AreSealed decrypt sid Key.api_key none (some ct) s
          (v, dec v ct e, ground (arith, valid), ground (arith, valid)) h)
  ]
  store-AreSealed Key.base_url v s valid h =
      upsert_config-AreSealed decrypt sid Key.base_url (some v) none s (ground (arith, valid)) h
  store-AreSealed Key.model v s valid h =
      upsert_config-AreSealed decrypt sid Key.model (some v) none s
        (ground (arith, valid), ground (arith, valid), ground (arith, valid)) h

  set_authorized-AreSealed :
      (sess : Session) (key : Option Key) (v : Text) (s : Configs)
      → AreSealed decrypt s
      → AreSealed decrypt (set_authorized lib sid sess key v s).0
  set_authorized-AreSealed sess none v s h = h
  set_authorized-AreSealed sess (some key) v s h = elim (Bool-cases (is_valid lib key v)) [
    | inr e ↦ rw e h
    | inl e ↦ elim (Option-cases (get_tool sess.tool s.db)) [
      | inl f ↦ rw (e, f) h
      | inr (t, f) ↦ elim (Bool-cases (tool_supports_key t key)) [
        | inr g ↦ rw (e, f, g) h
        | inl g ↦ rw (e, f, g) (store-AreSealed key v s e h)
      ]
    ]
  ]

-- the calls of the service
pub data ConfigCall : Type 0 where
  sets : Libraries → Ident → Option Key → Text → Member → ConfigCall
  clears : Ident → Key → Member → ConfigCall
  clears_all : Ident → Member → ConfigCall

unfoldable pub apply_call : ConfigCall → Configs → Configs
unfolding set_session_config clear_session_config_key clear_all_session_config
apply_call (ConfigCall.sets lib sid key v m) s = (set_session_config lib sid key v m s).0
apply_call (ConfigCall.clears sid key m) s = (clear_session_config_key sid key m s).0
apply_call (ConfigCall.clears_all sid m) s = (clear_all_session_config sid m s).0

-- of the calls that set a key
abbrev pub Decrypts : (Text → Option Text) → ConfigCall → Type 0
Decrypts decrypt (ConfigCall.sets lib sid key v m) = IsDecrypted decrypt lib
Decrypts decrypt c = Unit

apply_call-AreSealed :
    (decrypt : Text → Option Text) (c : ConfigCall) (s : Configs)
    → Decrypts decrypt c
    → AreSealed decrypt s
    → AreSealed decrypt (apply_call c s)
unfolding apply_call set_session_config clear_session_config_key clear_all_session_config
apply_call-AreSealed decrypt (ConfigCall.sets lib sid key v m) s dec h =
    elim (Option-cases (get_session sid s.db)) [
      | inl e ↦ rw (apply_call, set_session_config, e) h
      | inr (sess, e) ↦
          elim (Bool-cases (is_guild_admin_authorized (or_text sess.guild_id 0) m s.policies)) [
            | inr f ↦ rw (apply_call, set_session_config, e, f) h
            | inl f ↦
                rw (apply_call, set_session_config, e, f)
                  (set_authorized-AreSealed decrypt lib dec sid sess key v s h)
          ]
    ]
apply_call-AreSealed decrypt (ConfigCall.clears sid key m) s dec h =
    elim (Bool-cases (may_clear sid m s)) [
      | inr e ↦ rw (apply_call, clear_session_config_key, e) h
      | inl e ↦
          rw (apply_call, clear_session_config_key, e)
            (All-delete_where (IsSealed decrypt) (is_config_of sid key) s.session_config h)
    ]
apply_call-AreSealed decrypt (ConfigCall.clears_all sid m) s dec h =
    elim (Bool-cases (may_clear sid m s)) [
      | inr e ↦ rw (apply_call, clear_all_session_config, e) h
      | inl e ↦
          rw (apply_call, clear_all_session_config, e)
            (All-delete_where (IsSealed decrypt) (λ r. r.session_id == sid) s.session_config h)
    ]

unfoldable pub apply_calls : List ConfigCall → Configs → Configs
unfolding apply_call
apply_calls [] s = s
apply_calls (c ∷ cs) s = apply_calls cs (apply_call c s)

-- Whatever is set and cleared, by whom and in whatever order, every stored override is sealed: of an
-- API key only a ciphertext is stored, which decrypts to a valid API key, of another key only a
-- value, and a model is not empty, does not start with a dash and has no white space. What Fernet
-- encrypts, it decrypts.
pub apply_calls-AreSealed :
    (decrypt : Text → Option Text) (cs : List ConfigCall) (s : Configs)
    → All (Decrypts decrypt) cs
    → AreSealed decrypt s
    → AreSealed decrypt (apply_calls cs s)
unfolding apply_calls
apply_calls-AreSealed decrypt [] s dec h = h
apply_calls-AreSealed decrypt (c ∷ cs) s (dec, decs) h =
    apply_calls-AreSealed decrypt cs (apply_call c s) decs (apply_call-AreSealed decrypt c s dec h)

-- what is shown of one key does not tell two ciphertexts of a secret apart
shown_updated :
    (sid other : Ident) (key : Key) (ct ct' : Text) (l : List SessionConfig)
    → shown_of other key (update_where (is_config_of sid Key.api_key) (set_values none (some ct)) l)
      ≡ shown_of other key
          (update_where (is_config_of sid Key.api_key) (set_values none (some ct')) l)
shown_updated sid other key ct ct' [] = refl
shown_updated sid other key ct ct' (r ∷ l) =
    ground (arith, shown_updated sid other key ct ct' l, secret_code r.key)

shown_appended :
    (sid other : Ident) (key : Key) (ct ct' : Text) (l : List SessionConfig)
    → shown_of other key (l ++ config_row sid Key.api_key none (some ct) ∷ [])
      ≡ shown_of other key (l ++ config_row sid Key.api_key none (some ct') ∷ [])
shown_appended sid other key ct ct' [] = ground arith
shown_appended sid other key ct ct' (r ∷ l) = ground (arith, shown_appended sid other key ct ct' l)

shown_upserted :
    (sid other : Ident) (key : Key) (ct ct' : Text) (s : Configs)
    → shown_of other key (upsert_config sid Key.api_key none (some ct) s).session_config
      ≡ shown_of other key (upsert_config sid Key.api_key none (some ct') s).session_config
shown_upserted sid other key ct ct' s =
    elim (Bool-cases (any (is_config_of sid Key.api_key) s.session_config)) [
      | inl e ↦ rw e (shown_updated sid other key ct ct' s.session_config)
      | inr e ↦ rw e (shown_appended sid other key ct ct' s.session_config)
    ]

shown_alike :
    (sid other : Ident) (ct ct' : Text) (s : Configs)
    → get_session_config other (upsert_config sid Key.api_key none (some ct) s)
      ≡ get_session_config other (upsert_config sid Key.api_key none (some ct') s)
unfolding get_session_config
shown_alike sid other ct ct' s =
    rw
      (
        shown_upserted sid other Key.api_key ct ct' s,
        shown_upserted sid other Key.base_url ct ct' s,
        shown_upserted sid other Key.model ct ct' s,
      )
      refl

-- Two API keys that are valid and can be encrypted are answered alike, and whatever is shown after
-- setting the one, of any session, is shown after setting the other: what is shown tells nothing of
-- the key.
pub api_key_not_shown :
    (lib : Libraries) (sid other : Ident) (m : Member) (v v' ct ct' : Text) (s : Configs)
    → is_valid lib Key.api_key v ≡ true
    → is_valid lib Key.api_key v' ≡ true
    → lib.encrypt v ≡ some ct
    → lib.encrypt v' ≡ some ct'
    → let after = set_session_config lib sid (some Key.api_key) v m s in
      let after' = set_session_config lib sid (some Key.api_key) v' m s in
      (after.1 ≡ after'.1) × (get_session_config other after.0 ≡ get_session_config other after'.0)
unfolding set_session_config
api_key_not_shown lib sid other m v v' ct ct' s valid valid' e e' =
    elim (Option-cases (get_session sid s.db)) [
      | inl a ↦ rw (set_session_config, a) (refl, refl)
      | inr (sess, a) ↦
          elim (Bool-cases (is_guild_admin_authorized (or_text sess.guild_id 0) m s.policies)) [
            | inr b ↦ rw (set_session_config, a, b) (refl, refl)
            | inl b ↦ elim (Option-cases (get_tool sess.tool s.db)) [
              | inl c ↦ rw (set_session_config, a, b, valid, valid', c) (refl, refl)
              | inr (t, c) ↦ elim (Bool-cases (tool_supports_key t Key.api_key)) [
                | inr d ↦ rw (set_session_config, a, b, valid, valid', c, d) (refl, refl)
                | inl d ↦
                    rw (set_session_config, a, b, valid, valid', c, d, e, e')
                      (refl, shown_alike sid other ct ct' s)
              ]
            ]
          ]
    ]
