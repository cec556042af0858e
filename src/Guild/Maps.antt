-- ===== src/Guild/Maps.antt =====
-- src/discode/bot/policies/tool_channel_map.py, and `setup_map_set`, `setup_map_list` and
-- `setup_map_remove` of src/discode/bot/setup_service.py.
use discode.Base.{
  Bool, List, Option, delete_where, false, find, if◌then◌else◌, map_option, not, rowcount, select,
  true, upsert, ◌&&◌, ◌==◌,
}
use discode.Data.{Ident}
use discode.Guild.Auth.{GuildToolChannelMap, Member, Setup, is_guild_admin_authorized}

abbrev pub is_map_of : Ident → Ident → GuildToolChannelMap → Bool
is_map_of guild tool r = r.guild_id == guild && r.tool == tool

abbrev pub set_channel : Ident → GuildToolChannelMap → GuildToolChannelMap
set_channel channel r = record r { channel_id = channel }

unfoldable pub set_tool_channel_map :
    Ident → Ident → Ident → List GuildToolChannelMap → List GuildToolChannelMap
set_tool_channel_map guild tool channel l =
    upsert (is_map_of guild tool) (record { guild_id = guild; tool = tool; channel_id = channel })
      (set_channel channel) l

abbrev pub get_tool_channel_map :
    Ident → Ident → List GuildToolChannelMap → Option GuildToolChannelMap
get_tool_channel_map guild tool l = find (is_map_of guild tool) l

unfoldable pub resolve_tool_channel : Ident → Ident → List GuildToolChannelMap → Option Ident
resolve_tool_channel guild tool l =
    map_option (λ r. r.channel_id) (get_tool_channel_map guild tool l)

unfoldable pub list_tool_channel_maps : Ident → List GuildToolChannelMap → List GuildToolChannelMap
list_tool_channel_maps guild l = select (λ r. r.guild_id == guild) l

unfoldable pub remove_tool_channel_map :
    Ident → Ident → List GuildToolChannelMap → List GuildToolChannelMap × Bool
remove_tool_channel_map guild tool l =
    (delete_where (is_map_of guild tool) l, not (rowcount (is_map_of guild tool) l == 0))

unfoldable pub setup_map_set : Ident → Ident → Ident → Member → Setup → Setup × Bool
unfolding is_guild_admin_authorized set_tool_channel_map
setup_map_set guild tool channel m s =
    if is_guild_admin_authorized guild m s.policies
    then (record s { channel_maps = set_tool_channel_map guild tool channel s.channel_maps }, true)
    else (s, false)

unfoldable pub setup_map_list : Ident → Setup → List GuildToolChannelMap
unfolding list_tool_channel_maps
setup_map_list guild s = list_tool_channel_maps guild s.channel_maps

-- whether a row was deleted
unfoldable pub setup_map_remove : Ident → Ident → Member → Setup → Setup × Bool
unfolding is_guild_admin_authorized remove_tool_channel_map
setup_map_remove guild tool m s =
    let (maps, deleted) = remove_tool_channel_map guild tool s.channel_maps in
    if is_guild_admin_authorized guild m s.policies
    then (record s { channel_maps = maps }, deleted)
    else (s, false)
