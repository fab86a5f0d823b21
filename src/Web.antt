-- ===== src/Web.antt =====
-- internal/web: the site's handlers.
pub mod Create
pub mod I18n
pub mod Http
pub mod Server
pub mod Authn
pub mod Links
pub mod Pages
pub mod Api
pub mod Admin
pub mod Login
pub mod Routes
pub mod Mux
