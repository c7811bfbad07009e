-- ===== src/Render.antt =====
-- src/nightshade-render/src: the files that the renderers write.
pub mod Ini
