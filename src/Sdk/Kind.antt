-- ===== src/Sdk/Kind.antt =====
-- The module `ev` of sdk-rust/src/lib.rs.
use wasibrowser.Prelude.{ℕ}

abbrev pub pointer_down : ℕ
pointer_down = 1

abbrev pub pointer_up : ℕ
pointer_up = 2

abbrev pub pointer_move : ℕ
pointer_move = 3

abbrev pub click : ℕ
click = 4

abbrev pub dblclick : ℕ
dblclick = 5

abbrev pub pointer_enter : ℕ
pointer_enter = 6

abbrev pub pointer_leave : ℕ
pointer_leave = 7

abbrev pub wheel : ℕ
wheel = 8

abbrev pub key_down : ℕ
key_down = 9

abbrev pub key_up : ℕ
key_up = 10

abbrev pub text_input : ℕ
text_input = 11

abbrev pub input : ℕ
input = 12

abbrev pub focus : ℕ
focus = 15

abbrev pub blur : ℕ
blur = 16

abbrev pub scroll : ℕ
scroll = 17

abbrev pub window_resize : ℕ
window_resize = 18

abbrev pub theme_change : ℕ
theme_change = 19

abbrev pub page_load : ℕ
page_load = 22

abbrev pub observed_layout : ℕ
observed_layout = 32

abbrev pub net_result : ℕ
net_result = 40

abbrev pub rpc_result : ℕ
rpc_result = 41
