-- ===== src/Forum/Tests.antt =====
-- src/discord_forum_placement.py: names of two channels.
use discord_fediverse_bridge.Base.{String, List, [], ◌∷◌, some, ◌≡◌, refl, find, nat_eq, string_eq}
use discord_fediverse_bridge.Delivery.Diagnostics.{is_space, take_chars}
use discord_fediverse_bridge.Forum.Letters.{small_form}
use discord_fediverse_bridge.Forum.{
  normalize_forum_channel_name, unique_forum_channel_name, first_free, candidate, decimal, digit,
  lower_case, strip, rstrip, keep_last, drop_while, replace_others, collapse, longer, written,
  is_name_code, is_dash,
}
use discord_fediverse_bridge.Forum.Names.{Chosen, unique_forum_channel_name-Chosen}

abbrev names : List String
names = "General" ∷ "cats-and-dogs" ∷ []

unique_forum_channel_name-Chosen_example :
    Chosen names
      (normalize_forum_channel_name " Cats and Dogs! ")
      (unique_forum_channel_name names " Cats and Dogs! ")
unique_forum_channel_name-Chosen_example = unique_forum_channel_name-Chosen names " Cats and Dogs! "

picks : unique_forum_channel_name names " Cats and Dogs! " ≡ some "cats-and-dogs-2"
unfolding unique_forum_channel_name normalize_forum_channel_name first_free candidate decimal digit
    lower_case small_form find strip rstrip keep_last drop_while replace_others collapse longer
    written is_name_code is_dash is_space take_chars nat_eq string_eq
picks = refl
