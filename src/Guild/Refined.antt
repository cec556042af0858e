-- ===== src/Guild/Refined.antt =====
-- The setup commands of src/discode/bot/setup_service.py do what they mean.
use discode.Base.{
  ==_iff, Bool-cases, List, Option, Option-cases, [], any_of_find, any_of_find-none, ap, arith,
  delete_where, find, find-append, find-append_none, find-delete_where, find-delete_where_other,
  find-upsert, find-upsert_other, inl, inr, is_set, none, not, refl, rowcount, some, true, upserted,
  ◌&&◌, ◌++◌, ◌==◌, ◌||◌, ◌∙◌, ◌∷◌, ◌≡◌,
}
use discode.Data.{Ident}
use discode.Guild.Auth.{
  GuildAdminRolePolicy, GuildToolChannelMap, Member, Setup, bootstrap_policy, get_policy,
  is_guild_admin_authorized, is_policy_of, set_role, setup_admin_role_set, setup_init,
  upsert_policy,
}
use discode.Guild.Maps.{
  get_tool_channel_map, is_map_of, remove_tool_channel_map, resolve_tool_channel, set_channel,
  set_tool_channel_map, setup_map_remove, setup_map_set,
}
use discode.Guild.Channels.{
  Command, Meaning, Refines, execute, execute_all, is_admin, mean, mean_all, put_channel, role_of,
  set_admins,
}

admin-Refines :
    (s : Setup) (a : Meaning) (guild : Ident) (m : Member)
    → Refines s a
    → is_guild_admin_authorized guild m s.policies ≡ is_admin guild m a
unfolding is_guild_admin_authorized
admin-Refines s a guild m (admins, channels) = elim (Option-cases (get_policy guild s.policies)) [
  | inl e ↦ ground (arith, admins guild)
  | inr (p, e) ↦ elim (Option-cases p.role_id) [
    | inr (role, f) ↦ ground (arith, admins guild)
    | inl f ↦ elim (Option-cases p.role_name_fallback) [
      | inl h ↦ ground (arith, admins guild)
      | inr (name, h) ↦ ground (arith, admins guild)
    ]
  ]
]

role_of-upserted :
    (row : GuildAdminRolePolicy) (role name : Option Ident) (o : Option GuildAdminRolePolicy)
    → role_of row ≡ (role, name)
    → role_of (upserted row (set_role role name) o) ≡ (role, name)
role_of-upserted row role name none e = e
role_of-upserted row role name (some p) e = refl

policy_Refines :
    (s : Setup) (a : Meaning) (guild : Ident) (role name : Option Ident)
    → Refines s a
    → Refines (upsert_policy guild role name s) (set_admins guild (role, name) a)
policy_Refines s a guild role name (admins, channels) = (
  λ g. elim (Bool-cases (guild == g)) [
    | inl e ↦
        let row : GuildAdminRolePolicy = record {
          guild_id = guild;
          role_id = role;
          role_name_fallback = name;
        } in
        ground (
          arith,
          ap (λ x. find (is_policy_of x) (upsert_policy guild role name s).policies)
              ((==_iff guild g).0 e),
          find-upsert (is_policy_of guild) row (set_role role name) s.policies (ground arith)
              (λ p m. refl),
          role_of-upserted row role name (get_policy guild s.policies) refl,
        )
    | inr e ↦ ground (
      arith,
      admins g,
      find-upsert_other (is_policy_of guild) (is_policy_of g)
          (record { guild_id = guild; role_id = role; role_name_fallback = name })
          (set_role role name) s.policies (ground (arith, e)) (λ p m. refl)
          (λ p m. ground (arith, e, m)),
    )
  ],
  channels,
)

init-Refines :
    (s : Setup) (a : Meaning) (guild : Ident)
    → Refines s a
    → Refines (setup_init guild s) (mean (Command.init guild) a).0
unfolding setup_init mean
init-Refines s a guild (admins, channels) = elim (Option-cases (get_policy guild s.policies)) [
  | inr (p, e) ↦ ground (arith, admins guild, any_of_find (is_policy_of guild) s.policies p e)
  | inl e ↦
      let row = bootstrap_policy guild in
      (
        λ g. elim (Bool-cases (guild == g)) [
          | inl k ↦ ground (
            arith,
            admins guild,
            ap (λ x. find (is_policy_of x) (s.policies ++ row ∷ [])) ((==_iff guild g).0 k),
            any_of_find-none (is_policy_of guild) s.policies e,
            find-append_none (is_policy_of guild) s.policies (row ∷ []) e,
          )
          | inr k ↦ elim (Option-cases (get_policy g s.policies)) [
            | inl f ↦ ground (
              arith,
              admins guild,
              admins g,
              any_of_find-none (is_policy_of guild) s.policies e,
              find-append_none (is_policy_of g) s.policies (row ∷ []) f,
            )
            | inr (p, f) ↦ ground (
              arith,
              admins guild,
              admins g,
              any_of_find-none (is_policy_of guild) s.policies e,
              find-append (is_policy_of g) s.policies (row ∷ []) p f,
            )
          ]
        ],
        ground (arith, admins guild),
      )
]

same_key :
    (guild tool g t : Ident) (l : List GuildToolChannelMap)
    → (guild == g && tool == t) ≡ true
    → get_tool_channel_map guild tool l ≡ get_tool_channel_map g t l
same_key guild tool g t l e =
    ap (λ x. get_tool_channel_map x tool l) ((==_iff guild g).0 (ground (arith, e)))
    ∙ ap (λ y. get_tool_channel_map g y l) ((==_iff tool t).0 (ground (arith, e)))

channel_of_upserted :
    (row : GuildToolChannelMap) (channel : Ident) (o : Option GuildToolChannelMap)
    → row.channel_id ≡ channel
    → (upserted row (set_channel channel) o).channel_id ≡ channel
channel_of_upserted row channel none e = e
channel_of_upserted row channel (some r) e = refl

set-Refines :
    (s : Setup) (a : Meaning) (guild tool channel : Ident)
    → Refines s a
    → Refines
        (record s { channel_maps = set_tool_channel_map guild tool channel s.channel_maps })
        (put_channel guild tool (some channel) a)
unfolding set_tool_channel_map resolve_tool_channel
set-Refines s a guild tool channel (admins, channels) = (
  admins,
  λ g t. elim (Bool-cases (guild == g && tool == t)) [
    | inl e ↦
        let row : GuildToolChannelMap = record {
          guild_id = guild;
          tool = tool;
          channel_id = channel;
        } in
        ground (
          arith,
          same_key guild tool g t (set_tool_channel_map guild tool channel s.channel_maps) e,
          find-upsert (is_map_of guild tool) row (set_channel channel) s.channel_maps (ground arith)
              (λ r m. refl),
          channel_of_upserted row channel (get_tool_channel_map guild tool s.channel_maps) refl,
        )
    | inr e ↦ ground (
      arith,
      channels g t,
      find-upsert_other (is_map_of guild tool) (is_map_of g t)
          (record { guild_id = guild; tool = tool; channel_id = channel }) (set_channel channel)
          s.channel_maps (ground (arith, e)) (λ r m. refl) (λ r m. ground (arith, e, m)),
    )
  ],
)

remove-Refines :
    (s : Setup) (a : Meaning) (guild tool : Ident)
    → Refines s a
    → Refines
        (record s { channel_maps = (remove_tool_channel_map guild tool s.channel_maps).0 })
        (put_channel guild tool none a)
unfolding remove_tool_channel_map resolve_tool_channel
remove-Refines s a guild tool (admins, channels) = (
  admins,
  λ g t. elim (Bool-cases (guild == g && tool == t)) [
    | inl e ↦ ground (
      arith,
      same_key guild tool g t (delete_where (is_map_of guild tool) s.channel_maps) e,
      find-delete_where (is_map_of guild tool) s.channel_maps,
    )
    | inr e ↦ ground (
      arith,
      channels g t,
      find-delete_where_other (is_map_of guild tool) (is_map_of g t) s.channel_maps
          (λ r m. ground (arith, e, m)),
    )
  ],
)

rows_there :
    (guild tool : Ident) (l : List GuildToolChannelMap)
    → not (rowcount (is_map_of guild tool) l == 0) ≡ is_set (resolve_tool_channel guild tool l)
unfolding resolve_tool_channel
rows_there guild tool [] = refl
rows_there guild tool (r ∷ l) = ground (arith, rows_there guild tool l)

-- One command: the tables go on standing for the meaning, and the answers are the same.
execute-Refines :
    (c : Command) (s : Setup) (a : Meaning)
    → Refines s a
    → Refines (execute c s).0 (mean c a).0 × ((execute c s).1 ≡ (mean c a).1)
unfolding execute mean setup_admin_role_set setup_map_set setup_map_remove remove_tool_channel_map
execute-Refines (Command.init guild) s a h = (init-Refines s a guild h, refl)
execute-Refines (Command.admin_role_set already guild m role name) s a h =
    rw (admin-Refines s a guild m h) (elim (Bool-cases (already || is_admin guild m a)) [
      | inl e ↦ rw e (policy_Refines s a guild role name h, refl)
      | inr e ↦ rw e (h, refl)
    ])
execute-Refines (Command.map_set guild tool channel m) s a h =
    rw (admin-Refines s a guild m h) (elim (Bool-cases (is_admin guild m a)) [
      | inl e ↦ rw e (set-Refines s a guild tool channel h, refl)
      | inr e ↦ rw e (h, refl)
    ])
execute-Refines (Command.map_remove guild tool m) s a h =
    rw (admin-Refines s a guild m h) (elim (Bool-cases (is_admin guild m a)) [
      | inl e ↦ rw e (
        remove-Refines s a guild tool h,
        rows_there guild tool s.channel_maps ∙ ap is_set (h.1 guild tool),
      )
      | inr e ↦ rw e (h, refl)
    ])

-- The setup commands refine their meaning: over any commands by any members, the policies and the
-- channel maps stand for the admins of each guild and the channel of each of its tools that the
-- commands mean, and every command answers as it means to: one by a member who is no admin changes
-- nothing, and the last role or channel that was set, and not removed, is the one that holds.
pub execute_all-Refines :
    (cs : List Command) (s : Setup) (a : Meaning)
    → Refines s a
    → Refines (execute_all cs s).0 (mean_all cs a).0 × ((execute_all cs s).1 ≡ (mean_all cs a).1)
unfolding execute_all mean_all
execute_all-Refines [] s a h = (h, refl)
execute_all-Refines (c ∷ cs) s a h =
    let (after, answer) = execute-Refines c s a h in
    let (rest, answers) = execute_all-Refines cs (execute c s).0 (mean c a).0 after in
    (rest, ground (arith, answer, answers))
